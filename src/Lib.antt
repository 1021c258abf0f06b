-- ===== src/Lib.antt =====
-- Four programs of the bootstrap chain of asmc, in C: the assembler attic/staging.c and the
-- compiler for the G language attic/gstaging.c, which is linked with it. Both read a source file
-- twice. Stage 0 only fills the symbol table and counts the location, stage 1 writes the bytes and
-- compares every symbol with what stage 0 found. The compiler uses the symbol table, the numerals
-- and the emitters of the assembler, and keeps a stack of local variables and temporaries. The C
-- compiler cc/cc.c stands by itself: it rewrites the text of its file before it reads expressions,
-- and has two stages and tables of the same kind. cc/cc2.c is its sibling with types and
-- initialisers, and with one stage and no symbols.
--
-- Files and parts of the programs:
--   Prelude      Boolean tests and lists over the native numbers
--   Run          the ends of a run (a result, a panic, a fault, no fuel), do blocks, and loops;
--                Run/Keeps has the rules for relations that hold between the beginning and the end
--                of a run, Run/Flow the rules for conditionals and the ruleset of both,
--                Run/Ending the relation for termination, Run/Invariant the rules for code that
--                keeps a relation only under a condition
--   Cstring      strcmp2, isstrpref2, strlen2, find_char2, remove_spaces2, trimstr2
--   Globals      the globals behind get_stage() and its like, assert2, emit2, emit322, emit_str2;
--                Globals/Layout has the relation between output and location
--   Symbols      find_symbol2, add_symbol2, add_symbol_wrapper2, add_symbol_placeholder2,
--                fix_symbol_placeholder2; what they do in each stage (Stages), to lookups (Update,
--                Growth) and to the table (Table)
--   Numbers      decode_number2, decode_number_or_symbol2 of the assembler
--   Assembler    operands (Operand), emit_modrm2 and emit_helper2 (Encode), the opcode tables
--                (Opcodes), process_*_like2 (Instruction), process_*_line2 (Lines), readline2 and
--                assemble2 (Driver)
--   Compiler     the stack of variables (Stack, and as an abstract stack in Stack/View), get_token2
--                (Token), push_expr2 and labels (Expr), parse_block2 (Block), parse2, emit_preamble
--                and compile2 (Driver); what all of it keeps of the globals (Kept), and how the file
--                gets shorter with every token (Steady, Nameless, Measure,
--                Rounds, Nesting, Termination); the instructions that the code of an expression is
--                made of, on a stack of words (Machine), and what that code does (Codes, Pushes,
--                Operands, Execution, Discard, Sequence, Postfix, Straight)
--   Lookups      what a run of the assembler or of the compiler does to lookups in their table
--   Cc           cc/cc.c: find_matching, find_matching_rev, trimstr and the other helpers on
--                pieces of the text (Text), fix_strings (Literals), fix_operations and
--                fix_operations2 (Operations, and against a table of the operators in Pairs),
--                strncmp2 (Names), decode_number (Numbers), the symbols, the stack of variables
--                and the emitters (Tables), operators, calls and their parameters (Expressions),
--                parse_expr, eval_expr and compile_expression (Eval), compile_statement,
--                process_if and its like (Statements), compile_block, compile_block_with_head and
--                create_strings (Blocks), the stages of main (Driver); the table of symbols after
--                a run (Table)
--   Cc2          cc/cc2.c: the functions that are the same text in cc/cc.c, which are those of Cc
--                (Shared), the stack of variables and the emitters (Tables), interpret_type and
--                find_id (Types), parse_expr, eval_expr and compile_expression (Eval), fix_operands,
--                compile_statement, compile_block, compile_block_with_head and main (Blocks)
--   Stdlib       diskfs/stdlib: the classes and cases of ctype.h (Ctype), strcmp (Strings) and
--                strdup (Duplicate) of string.h
--   Tests        runs at small inputs, and the theorems at inputs that meet their hypotheses
--
-- Representation. A string is the list of its bytes without the terminator; a byte read behind the
-- end is the terminator, 0. An int is its 32-bit pattern, a number below 2 ^ 32, and -1 is 2 ^ 32
-- - 1. The arrays of symbol names, locations and arities are one list of records. The stack of
-- variables is a function from slots with a depth. A string that the C code changes in place is
-- returned. A function returns its result with the new globals, or how it stopped: by
-- platform_panic, by a fault of the hardware, or for want of fuel. The input is the rest of the
-- file that is read, and output the bytes written to it. In cc/cc.c a piece of the text from
-- `begin` to `end` is the list of its bytes, or the text with the two positions where the code
-- reads around the piece; a failed assert is a panic, and a read or a write outside of the text,
-- of a piece by a search or of an array is a fault. So the model stops where the C code reads on
-- in the file: behind the type of a declaration without a name (next_string), behind an empty body
-- {} (compile_block_with_head), and in front of an expression in the search for an open
-- parenthesis (parse_expr). platform_log, the messages of cc/cc.c and the copies that only they
-- read are left out.
--
-- Compiler/Machine is no code of the programs: it has the instructions of the processor for eight
-- of the opcodes that attic/gstaging.c emits, as its manual describes them, so that the code can be
-- run. The words of the stack are a list, apart from the rest of the memory. The functions that are
-- called are a parameter, and come back behind their calls with the stack as deep as it was.
--
-- Parameters. atoi and the sprintf of label names are the fields of the record Libc, which has no
-- hypotheses. The table of opcodes is an argument of the assembler; Assembler/Opcodes has the one
-- that asmasm/asmasm.asm fills, for the opcodes of the enum of attic/staging.c. In Cc the argument
-- label_text is the sprintf of gen_lab, and has no hypotheses. malloc, strlen and strcpy, which
-- strdup calls, are the fields of the record Pdclib, with what their documentation says of sizes
-- and copies; strdup runs on the memory from its pointer on, behind the terminator too.
--
-- Fuel. A pass of the assembler has the length of the file plus 2: every round but the last reads
-- a byte. The loops of the compiler have the length of the input that is left plus 3: a round of a
-- loop takes a token that is not empty, and of the tokens only the last may have been given back.
-- The blocks, the expressions and the parameters of cc/cc.c and cc/cc2.c have the length of their
-- piece plus 1, and every nested one is shorter. interpret_type of cc/cc2.c has the length of the
-- declaration plus 1; in front of a bracket the C code runs forever, and the model starves on
-- every fuel.
--
-- Not modelled: the bound of the token buffer, which the code does not check; the entry points
-- staging.c:main and gstaging.c:main and the files they open; of cc/cc.c the printing of the text
-- and of the tables, and find_id, which nothing calls; of cc/cc2.c find_in_stack, isstrpref and
-- print, which nothing calls; the other functions of the C library under diskfs, which are copies
-- of PDCLib or forward to the loader, and the programs there; the assembly and G sources.
pub mod Prelude
pub mod Run
pub mod Cstring
pub mod Globals
pub mod Symbols
pub mod Numbers
pub mod Assembler
pub mod Compiler
pub mod Lookups
pub mod Cc
pub mod Cc2
pub mod Stdlib
pub mod Tests
