-- ===== src/Token/Keywords/First.antt =====
-- The long words from a to i of `identifier_type` in src/frontend/lexer.c.
use scorivm.Base.Lists.{drop, get_or, length}
use scorivm.Base.Logic.{Bytes, bytes_eq, codes, ◌==◌, if◌then◌else◌}
use scorivm.Base.{◌&&◌}
use scorivm.Token.Keywords.Check.{check_keyword}
use scorivm.Token.{
  TokenKind, tk_bool_const, tk_identifier, tk_kw_actio, tk_kw_aliter, tk_kw_barbara, tk_kw_casus,
  tk_kw_consule, tk_kw_crea, tk_kw_de, tk_kw_dum, tk_kw_edita, tk_kw_elige, tk_kw_etc,
  tk_kw_excerpe, tk_kw_imago, tk_ty_acies, tk_ty_cohors, tk_ty_densa, tk_ty_f64, tk_ty_forma,
  tk_ty_i16, tk_ty_i64,
}

-- `case 'a'`
pub long_a : Bytes → TokenKind
long_a w =
    if length w == 5
    then (if bytes_eq (drop 1 w) (codes "ctio")
        then tk_kw_actio
        else if bytes_eq (drop 1 w) (codes "cies")
        then tk_ty_acies
        else tk_identifier)
    else if length w == 6
    then check_keyword w 1 5 (codes "liter") tk_kw_aliter
    else tk_identifier

-- `case 'b'`
pub long_b : Bytes → TokenKind
long_b w =
    if length w == 6
    then check_keyword w 1 5 (codes "revis") tk_ty_i16
    else if length w == 7
    then check_keyword w 1 6 (codes "arbara") tk_kw_barbara
    else tk_identifier

-- `case 'c'`
pub long_c : Bytes → TokenKind
long_c w =
    if length w == 7
    then check_keyword w 1 6 (codes "onsule") tk_kw_consule
    else if length w == 6
    then check_keyword w 1 5 (codes "ohors") tk_ty_cohors
    else if length w == 5
    then check_keyword w 1 4 (codes "asus") tk_kw_casus
    else if length w == 4
    then check_keyword w 1 3 (codes "rea") tk_kw_crea
    else tk_identifier

-- `case 'd'`
pub long_d : Bytes → TokenKind
long_d w =
    if length w == 2
    then check_keyword w 1 1 (codes "e") tk_kw_de
    else if length w == 3
    then check_keyword w 1 2 (codes "um") tk_kw_dum
    else if length w == 5
    then check_keyword w 1 4 (codes "ensa") tk_ty_densa
    else tk_identifier

-- `case 'e'`
pub long_e : Bytes → TokenKind
long_e w =
    if length w == 7
    then check_keyword w 1 6 (codes "xcerpe") tk_kw_excerpe
    else if length w == 5
    then (if bytes_eq (drop 1 w) (codes "dita")
        then tk_kw_edita
        else if bytes_eq (drop 1 w) (codes "lige")
        then tk_kw_elige
        else tk_identifier)
    else if length w == 3
    then check_keyword w 1 2 (codes "tc") tk_kw_etc
    else tk_identifier

-- `case 'f'`
pub long_f : Bytes → TokenKind
long_f w =
    if length w == 6 && get_or w 1 0 == 97
    then check_keyword w 2 4 (codes "lsum") tk_bool_const
    else if length w == 5 && get_or w 1 0 == 111
    then check_keyword w 2 3 (codes "rma") tk_ty_forma
    else if length w == 7 && get_or w 1 0 == 114
    then check_keyword w 2 5 (codes "actus") tk_ty_f64
    else tk_identifier

-- `case 'i'`
pub long_i : Bytes → TokenKind
long_i w =
    if length w == 7
    then check_keyword w 1 6 (codes "nteger") tk_ty_i64
    else if length w == 5
    then check_keyword w 1 4 (codes "mago") tk_kw_imago
    else tk_identifier
