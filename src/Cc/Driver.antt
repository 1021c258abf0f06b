-- ===== src/Cc/Driver.antt =====
-- cc/cc.c: `main`, on the bytes of the file. The messages are left out.
use asmc.Prelude.{ℕ, [], ◌==◌}
use asmc.Cstring.{Bytes}
use asmc.Run.{◌>>=◌, ◌>>◌, assert, expect, gets, modify}
use asmc.Cc.Literals.{fix_strings}
use asmc.Cc.Tables.{CcGlobals, C}
use asmc.Cc.Blocks.{compile_block, create_strings}

abbrev pub start_loc : ℕ
start_loc = 0x100000

-- The globals that a stage sets.
abbrev pub begin_stage : ℕ → CcGlobals → CcGlobals
begin_stage stage g = record g {
  stage = stage;
  lab_id = 1;
  literals = [];
  block_depth = 0;
  stack_depth = 0;
  current_loc = start_loc;
}

-- The loop over the stages leaves the stage behind the last.
abbrev pub end_stages : CcGlobals → CcGlobals
end_stages g = record g { stage = 2 }

module _ (label_text : ℕ → Bytes) (file : Bytes) where
  -- A stage behind the setting of its globals.
  unfoldable pub stage_body : C (Unit {0})
  stage_body = do
    src ← expect (fix_strings file)
    compile_block label_text src
    create_strings label_text
    block_depth ← gets (λ g. g.block_depth)
    assert (block_depth == 0)
    stack_depth ← gets (λ g. g.stack_depth)
    assert (stack_depth == 0)

  unfoldable pub compile_stage : ℕ → C (Unit {0})
  unfolding stage_body
  compile_stage stage = do modify (begin_stage stage); stage_body

  unfoldable pub main : C (Unit {0})
  unfolding compile_stage
  main = do
    modify (λ g. record g { labels = [] })
    compile_stage 0
    compile_stage 1
    modify end_stages
