-- ===== src/Object/ChunkId.antt =====
-- `luaO_chunkid` (lua-5.1.5/src/lobject.c): the display form of a source name stays in its buffer.
use lua_5_1_source_guide.Base.{
  ℕ, ◌+◌, ◌-◌, ◌%◌, ◌^◌, ◌<◌, ◌≤◌, arith, List, [], ◌∷◌, ◌++◌, length, take, drop, length-append,
  length-take, length-drop, ltb, if◌then◌else◌, Bool-cases, inl, inr,
}
use lua_5_1_source_guide.Object.{
  chunk_id, file_id, string_id, string_body, line_length, file_frame, string_frame, string_open,
  string_close, dots,
}

line_length-le : (s : List ℕ) → line_length s ≤ length s
unfolding line_length
line_length-le [] = omega arith
line_length-le (c ∷ s) = ground (arith, line_length-le s)

length-file_id : (name : List ℕ) (room : ℕ) → length (file_id name room) ≤ room + 3
unfolding file_id
length-file_id name room = elim (Bool-cases (ltb room (length name))) [
  | inl long ↦ rw long (
      omega (
        arith,
        length-drop (length name - room) name,
        length-append dots (drop (length name - room) name),
      ))
  | inr fits ↦ ground arith
]

length-string_body : (source : List ℕ) (len : ℕ) → length (string_body source len) ≤ len + 3
unfolding string_body
length-string_body source len = elim (Bool-cases (ltb len (length source))) [
  | inl long ↦ rw long (omega (arith, length-take len source, length-append (take len source) dots))
  | inr fits ↦ ground arith
]

length-string_id : (source : List ℕ) (room : ℕ) → length (string_id source room) ≤ room + 14
unfolding string_id
length-string_id source room =
    let line = line_length source in
    let body = string_body source (if ltb room line then room else line) in
    ground (
      arith,
      length-append string_open (body ++ string_close),
      length-append body string_close,
      length-string_body source (if ltb room line then room else line),
    )

-- Whatever the source name, with a buffer of at least 17 bytes (`LUA_IDSIZE` is 60) the display form
-- and its final zero fit the buffer.
pub length-chunk_id :
    (source : List ℕ) (bufflen : ℕ)
    → string_frame ≤ bufflen
    → bufflen < 2 ^ 64
    → length (chunk_id source bufflen) + 1 ≤ bufflen
unfolding chunk_id
length-chunk_id [] bufflen h w =
    omega (arith, length-string_id [] ((bufflen + 2 ^ 64 - string_frame) % 2 ^ 64))
length-chunk_id (c ∷ name) bufflen h w = ground (
  arith,
  length-string_id (c ∷ name) ((bufflen + 2 ^ 64 - string_frame) % 2 ^ 64),
  length-file_id name ((bufflen + 2 ^ 64 - file_frame) % 2 ^ 64),
  length-take (bufflen - 1) name,
)
