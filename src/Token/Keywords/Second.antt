-- ===== src/Token/Keywords/Second.antt =====
-- The long words from l to v of `identifier_type` in src/frontend/lexer.c.
use scorivm.Base.Lists.{drop, get_or, length}
use scorivm.Base.Logic.{Bytes, bytes_eq, codes, ◌==◌, if◌then◌else◌}
use scorivm.Base.{◌&&◌}
use scorivm.Token.Keywords.Check.{check_keyword}
use scorivm.Token.{
  TokenKind, tk_bool_const, tk_identifier, tk_kw_lege, tk_kw_lex, tk_kw_liber, tk_kw_locus,
  tk_kw_magnitudo, tk_kw_mica, tk_kw_morere, tk_kw_muta, tk_kw_neca, tk_kw_nihil, tk_kw_nullus,
  tk_kw_ordo, tk_kw_per, tk_kw_perge, tk_kw_recede, tk_kw_redde, tk_kw_rumpe, tk_kw_sali,
  tk_kw_scribe, tk_kw_si, tk_kw_sit, tk_kw_tene, tk_kw_unio, tk_kw_vade, tk_ty_i32, tk_ty_i8,
  tk_ty_littera, tk_ty_logica, tk_ty_purus, tk_ty_textus, tk_ty_via,
}

-- `case 'l'`
pub long_l : Bytes → TokenKind
long_l w =
    if length w == 5 && get_or w 1 0 == 105
    then check_keyword w 2 3 (codes "ber") tk_kw_liber
    else if length w == 6 && get_or w 1 0 == 111
    then check_keyword w 2 4 (codes "gica") tk_ty_logica
    else if length w == 7 && get_or w 1 0 == 105
    then check_keyword w 2 5 (codes "ttera") tk_ty_littera
    else if length w == 5 && get_or w 1 0 == 111
    then check_keyword w 2 3 (codes "cus") tk_kw_locus
    else if length w == 4 && get_or w 1 0 == 101
    then check_keyword w 2 2 (codes "ge") tk_kw_lege
    else if length w == 3 && get_or w 1 0 == 101
    then check_keyword w 2 1 (codes "x") tk_kw_lex
    else tk_identifier

-- `case 'm'`
pub long_m : Bytes → TokenKind
long_m w =
    if length w == 4
    then (if bytes_eq (drop 1 w) (codes "uta")
        then tk_kw_muta
        else if bytes_eq (drop 1 w) (codes "ica")
        then tk_kw_mica
        else tk_identifier)
    else if length w == 6
    then (if bytes_eq (drop 1 w) (codes "edius")
        then tk_ty_i32
        else if bytes_eq (drop 1 w) (codes "orere")
        then tk_kw_morere
        else tk_identifier)
    else if length w == 7
    then check_keyword w 1 6 (codes "inimus") tk_ty_i8
    else if length w == 9
    then (if bytes_eq (drop 1 w) (codes "agnitudo") then tk_kw_magnitudo else tk_identifier)
    else tk_identifier

-- `case 'n'`
pub long_n : Bytes → TokenKind
long_n w =
    if length w == 4
    then check_keyword w 1 3 (codes "eca") tk_kw_neca
    else if length w == 5
    then check_keyword w 1 4 (codes "ihil") tk_kw_nihil
    else if length w == 6
    then check_keyword w 1 5 (codes "ullus") tk_kw_nullus
    else tk_identifier

-- `case 'o'`
pub long_o : Bytes → TokenKind
long_o w = if length w == 4 then check_keyword w 1 3 (codes "rdo") tk_kw_ordo else tk_identifier

-- `case 'p'`
pub long_p : Bytes → TokenKind
long_p w =
    if length w == 3
    then check_keyword w 1 2 (codes "er") tk_kw_per
    else if length w == 5
    then (if bytes_eq (drop 1 w) (codes "erge")
        then tk_kw_perge
        else if bytes_eq (drop 1 w) (codes "urus")
        then tk_ty_purus
        else tk_identifier)
    else tk_identifier

-- `case 'r'`
pub long_r : Bytes → TokenKind
long_r w =
    if length w == 5
    then (if bytes_eq (drop 1 w) (codes "edde")
        then tk_kw_redde
        else if bytes_eq (drop 1 w) (codes "umpe")
        then tk_kw_rumpe
        else tk_identifier)
    else if length w == 6
    then check_keyword w 1 5 (codes "ecede") tk_kw_recede
    else tk_identifier

-- `case 's'`
pub long_s : Bytes → TokenKind
long_s w =
    if length w == 2
    then check_keyword w 1 1 (codes "i") tk_kw_si
    else if length w == 3
    then check_keyword w 1 2 (codes "it") tk_kw_sit
    else if length w == 4
    then check_keyword w 1 3 (codes "ali") tk_kw_sali
    else if length w == 6
    then check_keyword w 1 5 (codes "cribe") tk_kw_scribe
    else tk_identifier

-- `case 't'`
pub long_t : Bytes → TokenKind
long_t w =
    if length w == 4
    then check_keyword w 1 3 (codes "ene") tk_kw_tene
    else if length w == 6
    then check_keyword w 1 5 (codes "extus") tk_ty_textus
    else tk_identifier

-- `case 'u'`
pub long_u : Bytes → TokenKind
long_u w = if length w == 4 then check_keyword w 1 3 (codes "nio") tk_kw_unio else tk_identifier

-- `case 'v'`
pub long_v : Bytes → TokenKind
long_v w =
    if length w == 5
    then check_keyword w 1 4 (codes "erum") tk_bool_const
    else if length w == 4
    then check_keyword w 1 3 (codes "ade") tk_kw_vade
    else if length w == 3
    then check_keyword w 1 2 (codes "ia") tk_ty_via
    else tk_identifier
