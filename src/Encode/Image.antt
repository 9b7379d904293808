-- ===== src/Encode/Image.antt =====
-- The tables that `generate_machine_code` of src/backend/pe_linker.c gathers, and the addresses and the
-- linking of `pe_linker_generate_executable`. Numbers of 32 bits wrap.
pub mod Linked
use scorivm.Base.Lists.{length}
use scorivm.Base.Logic.{Bytes, bytes_eq, codes, ltb, ◌==◌, if◌then◌else◌}
use scorivm.Base.{
  ℕ, zero, suc, ◌+◌, ◌-◌, ◌*◌, ◌/◌, ◌%◌, ◌^◌, Bool, true, false, Option, none, some, List, [], ◌∷◌,
  ◌++◌,
}
use scorivm.Builder.{GlobalVar, ExternFunc}
use scorivm.Encode.Imports.{zeros, align_buffer, write_at}
use scorivm.Encode.Write.{rel32}
use scorivm.Encode.{emit32}
use scorivm.Mir.{X86Value, op_string, X86Operand, X86Inst, X86Block, X86Function}

-- A name that is there already is not added; a new one stands first.
unfoldable pub has_extern : List ExternFunc → Bytes → Bool
has_extern [] name = false
has_extern (e ∷ externs) name = if bytes_eq e.name name then true else has_extern externs name

unfoldable pub add_sys_extern : List ExternFunc → Bytes → Bytes → List ExternFunc
add_sys_extern externs name dll =
    if has_extern externs name then externs else record { name = name; dll_name = dll } ∷ externs

abbrev pub kernel32 : Bytes
kernel32 = codes "kernel32.dll"

pub with_sys_externs : List ExternFunc → List ExternFunc
with_sys_externs externs =
    let e1 = add_sys_extern externs (codes "GetStdHandle") kernel32 in
    let e2 = add_sys_extern e1 (codes "WriteFile") kernel32 in
    let e3 = add_sys_extern e2 (codes "ReadFile") kernel32 in
    let e4 = add_sys_extern e3 (codes "GetProcessHeap") kernel32 in
    let e5 = add_sys_extern e4 (codes "HeapAlloc") kernel32 in
    let e6 = add_sys_extern e5 (codes "HeapFree") kernel32 in
    add_sys_extern e6 (codes "ExitProcess") kernel32

-- The first bytes of the data of a variable; data that is shorter is taken as it is.
first_bytes : ℕ → Bytes → Bytes
first_bytes zero bs = []
first_bytes (suc n) [] = []
first_bytes (suc n) (c ∷ bs) = c % 256 ∷ first_bytes n bs

pub global_bytes : GlobalVar → Bytes
global_bytes g = elim g.init_data [ some bs ↦ first_bytes g.size bs | none ↦ zeros g.size ]

-- The data section with each variable at a multiple of 8, and the table of the offsets.
unfoldable pub place_globals : Bytes → List GlobalVar → Bytes × List (Bytes × ℕ)
place_globals data_section [] = (data_section, [])
place_globals data_section (g ∷ globals) =
    let start : Bytes = align_buffer data_section in
    let (last, table) : Bytes × List (Bytes × ℕ) =
      place_globals (start ++ global_bytes g) globals in
    (last, (g.name, length start % 2 ^ 32) ∷ table)

-- The text constants so far, with the section that holds them.
pub record Strings : Type 0 where
  pub rdata : Bytes
  pub strings : List (Bytes × ℕ)

unfoldable pub has_string : List (Bytes × ℕ) → Bytes → Bool
has_string [] text = false
has_string ((t, off) ∷ table) text = if bytes_eq t text then true else has_string table text

unfoldable pub add_string : Strings → Bytes → Strings
add_string s text = if has_string s.strings text then s else record {
  rdata = s.rdata ++ text;
  strings = s.strings ++ ((text, length s.rdata % 2 ^ 32) ∷ []);
}

abbrev pub add_operand : Strings → X86Value → Strings
add_operand s (op_string text) = add_string s text
add_operand s _ = s

unfoldable pub operand_strings : Strings → List X86Operand → Strings
operand_strings s [] = s
operand_strings s (o ∷ ops) = operand_strings (add_operand s o.value) ops

unfoldable pub inst_strings : Strings → List X86Inst → Strings
inst_strings s [] = s
inst_strings s (inst ∷ insts) = inst_strings (operand_strings s inst.ops) insts

unfoldable pub block_strings : Strings → List X86Block → Strings
block_strings s [] = s
block_strings s (b ∷ blocks) = block_strings (inst_strings s b.insts) blocks

unfoldable pub function_strings : Strings → List X86Function → Strings
function_strings s [] = s
function_strings s (f ∷ funcs) = function_strings (block_strings s f.blocks) funcs

-- `align_up` for the two alignments, which are powers of two: the low bits of the sum are cleared.
abbrev pub round_up : ℕ → ℕ → ℕ
round_up alignment n = let sum : ℕ = (n + alignment - 1) % 2 ^ 32 in sum - sum % alignment

abbrev pub file_round : ℕ → ℕ
file_round n = round_up 0x200 n

abbrev pub page_round : ℕ → ℕ
page_round n = round_up 0x1000 n

-- The addresses and file offsets of the sections, `data` where there are three.
pub record Sections : Type 0 where
  pub size_of_headers : ℕ
  pub text_address : ℕ
  pub text_raw_size : ℕ
  pub text_raw : ℕ
  pub rdata_address : ℕ
  pub rdata_raw_size : ℕ
  pub rdata_raw : ℕ
  pub data_address : ℕ
  pub data_raw_size : ℕ
  pub data_raw : ℕ
  pub size_of_image : ℕ

-- The headers are 64, 24 and 240 bytes, and 40 for each section.
abbrev pub headers_size : Bool → ℕ
headers_size three = file_round (64 + 24 + 240 + 40 * (if three then 3 else 2))

unfoldable pub place_sections : ℕ → ℕ → ℕ → Sections
place_sections text_size rdata_size data_size =
    let three : Bool = ltb 0 data_size in
    let headers : ℕ = headers_size three in
    let text_raw_size : ℕ = file_round (text_size % 2 ^ 32) in
    let rdata_address : ℕ = page_round ((0x1000 + text_size) % 2 ^ 32) in
    let rdata_raw_size : ℕ = file_round (rdata_size % 2 ^ 32) in
    let rdata_raw : ℕ = (headers + text_raw_size) % 2 ^ 32 in
    let data_address : ℕ = page_round ((rdata_address + rdata_size) % 2 ^ 32) in
    record {
      size_of_headers = headers;
      text_address = 0x1000;
      text_raw_size = text_raw_size;
      text_raw = headers;
      rdata_address = rdata_address;
      rdata_raw_size = rdata_raw_size;
      rdata_raw = rdata_raw;
      data_address = if three then data_address else 0;
      data_raw_size = if three then file_round (data_size % 2 ^ 32) else 0;
      data_raw = if three then (rdata_raw + rdata_raw_size) % 2 ^ 32 else 0;
      size_of_image = page_round (
          if three
          then (data_address + data_size) % 2 ^ 32
          else (rdata_address + rdata_size) % 2 ^ 32);
    }

-- A place in the text takes the distance from behind it to an address.
unfoldable pub link_place : ℕ → Bytes → ℕ → ℕ → Bytes
link_place text_address text text_off target_rva =
    write_at text text_off (emit32 (rel32 target_rva (text_address + text_off)))
