-- ===== src/Verifier/Registers.antt =====
-- What the instructions of a code that `luaG_checkcode` (lua-5.1.5/src/ldebug.c) accepted name is there.
use lua_5_1_source_guide.Verifier.Walk.{Walk}
