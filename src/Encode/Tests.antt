-- ===== src/Encode/Tests.antt =====
-- The theorems on src/backend/pe_linker.c at concrete inputs.

use scorivm.Base.{ℕ, ◌+◌, ◌%◌, ◌^◌, ◌≡◌, refl, Option, none, some, List, [], ◌∷◌, ◌++◌, arith}
use scorivm.Encode.Constants.{emit_mov-RoundTrips}
use scorivm.Encode.Decode.{read_instruction}
use scorivm.Encode.Image.Linked.{drop_bytes, link_place-Leads, AreOrdered, sections-AreOrdered}
use scorivm.Encode.Image.{place_sections, link_place}
use scorivm.Encode.Imports.{ImportDll, pe_idata_add_import, reserve, table_size, tables_size}
use scorivm.Encode.Imports.Slots.{add_import-twice, AreApart, reserve-AreApart}
use scorivm.Encode.Layout.Agree.{passes-Agree}
use scorivm.Encode.Layout.Ends.{jumps-Land}
use scorivm.Encode.Layout.{
  Tables, Text, offset_of, zip_funcs, ctx_of, pad_from, emit_insts, emit_blocks, emit_functions,
  emit_pass,
}
use scorivm.Encode.Dispatch.{writes, write_case, emit_x86_inst}
use scorivm.Encode.Write.{rel32, emit_write, run_writes}
use scorivm.Encode.Memory.Address.{read_address, address}
use scorivm.Encode.Memory.RoundTrip.{emit_mem-RoundTrips, emit_mem_sib-RoundTrips}
use scorivm.Encode.Memory.{LinkCtx, get_mem_rex, emit_mem_sib}
use scorivm.Base.Logic.{Bytes, codes, bytes_eq, bytes_eq_iff}
use scorivm.Encode.Decode.{read32}
use scorivm.Encode.{emit32, emit_rex, emit_mem, emit_mov_reg_imm32, emit_mov_reg_imm64}
use scorivm.Mir.{
  mem_base_disp, mem_sib, op_block, X86Inst, X86Function, x86_inst_jmp, x86_inst_ret, x86_cond_none,
  x86_cond_e,
}

-- `[r12 - 16]`, which takes a further byte and a short displacement.
emit_mem-RoundTrips_example :
    read_address
      (get_mem_rex (mem_base_disp 12 4294967280)).0
      (get_mem_rex (mem_base_disp 12 4294967280)).1
      (emit_mem 3 12 4294967280 ++ (0xC3 ∷ []))
    ≡ some ((3, address 12 none 4294967280), 0xC3 ∷ [])
emit_mem-RoundTrips_example =
    emit_mem-RoundTrips 3 12 4294967280 (0xC3 ∷ []) (omega arith) (omega arith)

abbrev tables : Tables
tables = record { strings = []; globals = []; func_names = (109 ∷ []) ∷ []; externs = [] }

abbrev before : Text
before = record {
  text = [];
  relocs = [];
  offsets = [];
  func_offsets = 0 ∷ [];
  princeps_offset = 0;
  init_offset = 0;
}

abbrev jump_to_end : X86Inst
jump_to_end = record {
  opcode = x86_inst_jmp;
  cond = x86_cond_none;
  ops = record { size = 0; value = op_block 2 } ∷ [];
}

abbrev leave : X86Inst
leave = record { opcode = x86_inst_ret; cond = x86_cond_none; ops = [] }

-- One function of two blocks.
abbrev funcs : List X86Function
funcs =
    record {
      name = 109 ∷ [];
      blocks =
          record { address = 1; id = 1; insts = jump_to_end ∷ [] }
          ∷ record { address = 2; id = 1; insts = leave ∷ [] }
          ∷ [];
    }
    ∷ []

abbrev ctx : LinkCtx
ctx = record { pass = 1; strings = []; globals = []; funcs = []; externs = [] }

abbrev at_100 : ℕ → ℕ
at_100 id = 100

jumps-Land_example :
    (10 + 5 + (jumps-Land ctx at_100 10 2 x86_cond_e (omega arith)).0) % 2 ^ 32 ≡ 100
jumps-Land_example = (jumps-Land ctx at_100 10 2 x86_cond_e (omega arith)).3

abbrev text_of : Option (Text × ℕ × ℕ) → Text × ℕ × ℕ
text_of none = (before, 0, 0)
text_of (some r) = r

abbrev first_text : Text × ℕ × ℕ
first_text = text_of (emit_pass 0 tables before funcs)

abbrev second_text : Text × ℕ × ℕ
second_text = text_of (emit_pass 1 tables first_text.0 funcs)

passes-Agree_example : second_text.1 ≡ first_text.1
unfolding emit_pass emit_functions emit_blocks emit_insts emit_x86_inst writes write_case run_writes
    emit_write pad_from rel32 offset_of zip_funcs ctx_of emit32 emit_rex
passes-Agree_example = (passes-Agree tables before funcs first_text second_text refl refl).2

emit_mov-RoundTrips_example :
    (read_instruction (emit_mov_reg_imm64 12 (2 ^ 40) ++ (0xC3 ∷ []))
      ≡ some ((12, 2 ^ 40), 0xC3 ∷ []))
    × (read_instruction (emit_mov_reg_imm32 12 7 ++ (0xC3 ∷ [])) ≡ some ((12, 7), 0xC3 ∷ []))
emit_mov-RoundTrips_example =
    emit_mov-RoundTrips 12 (0xC3 ∷ []) (omega arith) (2 ^ 40) 7 (omega arith) (omega arith)

-- Three sections: 0x1234 bytes of text, 100 of constants and 8 of variables.
sections-AreOrdered_example : AreOrdered 0x1234 100 8 (place_sections 0x1234 100 8)
sections-AreOrdered_example = sections-AreOrdered 0x1234 100 8 (omega arith) (omega arith)

-- `[r13 + 8 * r12 + 16]`
emit_mem_sib-RoundTrips_example :
    read_address
      (get_mem_rex (mem_sib 13 12 3 16)).0
      (get_mem_rex (mem_sib 13 12 3 16)).1
      (emit_mem_sib 3 13 12 3 16 ++ (0xC3 ∷ []))
    ≡ some ((3, address 13 (some (12, 3)) 16), 0xC3 ∷ [])
emit_mem_sib-RoundTrips_example =
    emit_mem_sib-RoundTrips 3 13 12 3 16 (0xC3 ∷ []) (omega arith) (omega arith) (omega arith)
      (omega arith) (λ e. absurd (omega (arith, e)))

link_place-Leads_example :
    let text : Bytes = 0xE8 ∷ 0 ∷ 0 ∷ 0 ∷ 0 ∷ 0xC3 ∷ [] in
    (d : ℕ) × (read32 (drop_bytes 1 (link_place 0x1000 text 1 0x2040)) ≡ some (d, 0xC3 ∷ []))
    × ((0x1000 + 1 + 4 + d) % 2 ^ 32 ≡ 0x2040)
unfolding drop_bytes
link_place-Leads_example =
    link_place-Leads 0x1000 (0xE8 ∷ 0 ∷ 0 ∷ 0 ∷ 0 ∷ 0xC3 ∷ []) 1 0x2040 (omega arith) (omega arith)

abbrev exit_dll : ImportDll
exit_dll = record {
  dll_name = codes "kernel32.dll";
  imports =
      record { func_name = codes "ExitProcess"; iat_offset = 0 }
      ∷ record { func_name = codes "ReadFile"; iat_offset = 0 }
      ∷ [];
}

add_import-twice_example :
    let once =
      pe_idata_add_import bytes_eq (exit_dll ∷ []) (codes "kernel32.dll") (codes "Sleep") in
    pe_idata_add_import bytes_eq once (codes "kernel32.dll") (codes "Sleep") ≡ once
add_import-twice_example =
    add_import-twice bytes_eq (λ name. (bytes_eq_iff name name).1 refl) (exit_dll ∷ [])
      (codes "kernel32.dll") (codes "Sleep")

reserve-AreApart_example :
    AreApart 60 (exit_dll ∷ []) (reserve 60 (exit_dll ∷ [])) (60 + tables_size (exit_dll ∷ []))
unfolding tables_size table_size
reserve-AreApart_example = reserve-AreApart 60 (exit_dll ∷ []) (omega arith)
