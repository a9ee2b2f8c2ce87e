-- ===== src/Tests/Texts.antt =====
-- Runs of `split`, `trim` and `convertToKB`, and their theorems at concrete strings.
use yeyj_tcp_server.Base.{◌≡◌, refl, arith, [], ◌∷◌, ◌++◌, codes, ok, pos, negsuc}
use yeyj_tcp_server.Buffer.{c_string, is_digit}
use yeyj_tcp_server.Server.Integers.{
  int_of, times_int, skip_spaces, leading_number, take_sign, atoi, unit_factor, convert_to_kb,
}
use yeyj_tcp_server.Text.Split.{join, split-join}
use yeyj_tcp_server.Text.Trim.{trim_lem}
use yeyj_tcp_server.Text.{is_space, is_delim, strsep, split_loop, split, trim}

split_runs : split (codes "a=b==c") (codes "=") ≡ ok (codes "a" ∷ codes "b" ∷ [] ∷ codes "c" ∷ [])
unfolding is_delim strsep split_loop split c_string
split_runs = refl

split-join_example :
    split (join b'=' (codes "key ") (codes " 7" ∷ [])) (b'=' ∷ [])
    ≡ ok (codes "key " ∷ codes " 7" ∷ [])
split-join_example =
    split-join b'=' (codes "key ") (codes " 7" ∷ []) (omega arith)
      (
        omega arith,
        (
          omega arith,
          (omega arith, (omega arith, (omega arith, (omega arith, (omega arith, tt))))),
        ),
      )
      ((refl, (refl, (refl, (refl, tt)))), ((refl, (refl, tt)), tt))

trim_lem_example : trim (codes "  " ++ (codes "a b" ++ codes " ")) ≡ codes "a b"
unfolding is_space
trim_lem_example =
    trim_lem (codes "  ") (codes "a b") (codes " ") (refl, (refl, tt)) refl refl (refl, tt)

atoi_runs : atoi (codes " -12x") ≡ ok (negsuc 11)
unfolding is_digit c_string is_space int_of skip_spaces leading_number take_sign atoi
atoi_runs = refl

convert_to_kb_runs : convert_to_kb (codes "2M") ≡ ok (pos 2048)
unfolding is_digit c_string is_space int_of skip_spaces leading_number take_sign atoi unit_factor
    times_int convert_to_kb
convert_to_kb_runs = refl
