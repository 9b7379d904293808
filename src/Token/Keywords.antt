-- ===== src/Token/Keywords.antt =====
-- Reserved words: `check_keyword` and `identifier_type` of src/frontend/lexer.c. The text from
-- `lexer->start` to `lexer->current` is the argument `w`; `len` is its length, and no `memcmp` reads
-- beyond it.
mod Check
mod First
mod Second
use scorivm.Base.Lists.{get_or}
use scorivm.Base.Logic.{Bytes, bytes_eq, codes, ◌==◌, if◌then◌else◌}
use scorivm.Base.{ℕ, Option, none, some}
use scorivm.Token.Keywords.First.{long_a, long_b, long_c, long_d, long_e, long_f, long_i}
use scorivm.Token.Keywords.Second.{
  long_l, long_m, long_n, long_o, long_p, long_r, long_s, long_t, long_u, long_v,
}
use scorivm.Token.{
  TokenKind, tk_identifier, tk_kw_actio, tk_kw_aliter, tk_kw_barbara, tk_kw_consule, tk_kw_edita,
  tk_kw_excerpe, tk_kw_imago, tk_kw_lege, tk_kw_magnitudo, tk_kw_mica, tk_kw_morere, tk_kw_nihil,
  tk_kw_nullus, tk_kw_ordo, tk_kw_perge, tk_kw_recede, tk_kw_redde, tk_kw_rumpe, tk_kw_scribe,
  tk_ty_cohors, tk_ty_densa, tk_ty_f32, tk_ty_f64, tk_ty_forma, tk_ty_i16, tk_ty_i32, tk_ty_i64,
  tk_ty_i8, tk_ty_littera, tk_ty_logica, tk_ty_p16, tk_ty_p32, tk_ty_p64, tk_ty_p8, tk_ty_textus,
}

-- The abbreviations, in the order of the tests.
abbrev short_form : Bytes → Option TokenKind
short_form w =
    if bytes_eq w (codes "i8")
    then some tk_ty_i8
    else if bytes_eq w (codes "i16")
    then some tk_ty_i16
    else if bytes_eq w (codes "i32")
    then some tk_ty_i32
    else if bytes_eq w (codes "i64")
    then some tk_ty_i64
    else if bytes_eq w (codes "img")
    then some tk_kw_imago
    else if bytes_eq w (codes "ord")
    then some tk_kw_ordo
    else if bytes_eq w (codes "p8")
    then some tk_ty_p8
    else if bytes_eq w (codes "p16")
    then some tk_ty_p16
    else if bytes_eq w (codes "p32")
    then some tk_ty_p32
    else if bytes_eq w (codes "p64")
    then some tk_ty_p64
    else if bytes_eq w (codes "f32")
    then some tk_ty_f32
    else if bytes_eq w (codes "f64")
    then some tk_ty_f64
    else if bytes_eq w (codes "edt")
    then some tk_kw_edita
    else if bytes_eq w (codes "bbr")
    then some tk_kw_barbara
    else if bytes_eq w (codes "lgc")
    then some tk_ty_logica
    else if bytes_eq w (codes "ltr")
    then some tk_ty_littera
    else if bytes_eq w (codes "txt")
    then some tk_ty_textus
    else if bytes_eq w (codes "frm")
    then some tk_ty_forma
    else if bytes_eq w (codes "dns")
    then some tk_ty_densa
    else if bytes_eq w (codes "crs")
    then some tk_ty_cohors
    else if bytes_eq w (codes "act")
    then some tk_kw_actio
    else if bytes_eq w (codes "rdd")
    then some tk_kw_redde
    else if bytes_eq w (codes "nhl")
    then some tk_kw_nihil
    else if bytes_eq w (codes "nls")
    then some tk_kw_nullus
    else if bytes_eq w (codes "rmp")
    then some tk_kw_rumpe
    else if bytes_eq w (codes "prg")
    then some tk_kw_perge
    else if bytes_eq w (codes "mor")
    then some tk_kw_morere
    else if bytes_eq w (codes "mgn")
    then some tk_kw_magnitudo
    else if bytes_eq w (codes "mic")
    then some tk_kw_mica
    else if bytes_eq w (codes "csl")
    then some tk_kw_consule
    else if bytes_eq w (codes "xcp")
    then some tk_kw_excerpe
    else if bytes_eq w (codes "alt")
    then some tk_kw_aliter
    else if bytes_eq w (codes "scb")
    then some tk_kw_scribe
    else if bytes_eq w (codes "leg")
    then some tk_kw_lege
    else if bytes_eq w (codes "rcd")
    then some tk_kw_recede
    else none

-- The `switch` on the first byte.
long_form : ℕ → Bytes → TokenKind
long_form c w =
    if c == 97
    then long_a w
    else if c == 98
    then long_b w
    else if c == 99
    then long_c w
    else if c == 100
    then long_d w
    else if c == 101
    then long_e w
    else if c == 102
    then long_f w
    else if c == 105
    then long_i w
    else if c == 108
    then long_l w
    else if c == 109
    then long_m w
    else if c == 110
    then long_n w
    else if c == 111
    then long_o w
    else if c == 112
    then long_p w
    else if c == 114
    then long_r w
    else if c == 115
    then long_s w
    else if c == 116
    then long_t w
    else if c == 117
    then long_u w
    else if c == 118
    then long_v w
    else tk_identifier

pub identifier_type : Bytes → TokenKind
identifier_type w = elim (short_form w) [ some k ↦ k | none ↦ long_form (get_or w 0 0) w ]
