-- ===== src/Token.antt =====
-- Tokens: src/frontend/token.h. A token's pointer into the source is the text from there to its end.
pub mod Keywords
use scorivm.Base.Logic.{Bytes}
use scorivm.Base.{ℕ}

pub data TokenKind : Type 0 where
  tk_eof tk_unknown tk_identifier tk_int_const tk_float_const tk_bool_const : TokenKind
  tk_char_const tk_string_const tk_lparen tk_rparen tk_lbrace tk_rbrace : TokenKind
  tk_lbracket tk_rbracket tk_comma tk_dot tk_colon tk_semi tk_arrow tk_plus : TokenKind
  tk_minus tk_star tk_slash tk_mod tk_amp tk_pipe tk_caret tk_tilde tk_shl tk_shr : TokenKind
  tk_assign tk_plus_assign tk_minus_assign tk_star_assign tk_slash_assign : TokenKind
  tk_mod_assign tk_amp_assign tk_pipe_assign tk_caret_assign tk_shl_assign : TokenKind
  tk_shr_assign tk_logic_not tk_logic_and tk_logic_or tk_eq tk_neq tk_lt tk_gt : TokenKind
  tk_lte tk_gte tk_kw_liber tk_kw_consule tk_kw_de tk_kw_excerpe tk_kw_edita : TokenKind
  tk_kw_barbara tk_kw_etc tk_kw_imago tk_kw_actio tk_kw_redde tk_kw_sit tk_kw_lex : TokenKind
  tk_kw_si tk_kw_aliter tk_kw_dum tk_kw_per tk_kw_muta tk_kw_rumpe tk_kw_perge : TokenKind
  tk_kw_morere tk_kw_locus tk_kw_tene tk_kw_vade tk_kw_recede tk_kw_scribe : TokenKind
  tk_kw_lege tk_kw_crea tk_kw_neca tk_kw_nihil tk_kw_nullus tk_kw_sali tk_kw_elige : TokenKind
  tk_kw_casus tk_kw_unio tk_kw_ordo tk_kw_magnitudo tk_kw_mica tk_ty_i8 tk_ty_i16 : TokenKind
  tk_ty_i32 tk_ty_i64 tk_ty_p8 tk_ty_p16 tk_ty_p32 tk_ty_p64 tk_ty_f32 tk_ty_f64 : TokenKind
  tk_ty_purus tk_ty_logica tk_ty_littera tk_ty_via tk_ty_cohors tk_ty_forma : TokenKind
  tk_ty_densa tk_ty_textus tk_ty_acies : TokenKind

pub record Token : Type 0 where
  pub kind : TokenKind
  pub start : Bytes
  pub length : ℕ
  pub line : ℕ
  pub column : ℕ
