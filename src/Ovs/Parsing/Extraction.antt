-- ===== src/Ovs/Parsing/Extraction.antt =====
-- What the fabric reads back from a flow: the VNI, the address of the host, and the cookie.
use kube_examples.Common.{ℕ, ◌^◌, ◌<◌, ◌≡◌, refl, ap, ◌∙◌, subst, arith, true, [], ◌∷◌, ◌++◌}
use mathlib.Core.List.{append-nil as append_nil}
use kube_examples.GoNet.{v4_in_v6_prefix}
use kube_examples.GoText.{Text, codes}
use kube_examples.GoText.Hex.{hex_digit, hex_digits_of, format_hex, parse_value}
use kube_examples.GoText.Hex.Digits.{Digits, hex_digits_of-Digits, parse_value-trim_left}
use kube_examples.GoText.Pieces.{has_prefix, trim_left}
use kube_examples.GoText.Regexp.{plus, then_, literal, runs, matches, find_string}
use kube_examples.GoText.Regexp.Finding.{
  Starts, literal-Starts, class-Starts, runs-Starts, find_string-Starts, Clear, find_string-skip,
}
use kube_examples.Util.{make_ipv4_from_uint32}
use kube_examples.Ovs.Parsing.{
  is_hex, hex_nbr, hex_prefix_chars, extract_vni, hex_str_to_ipv4, extract_host_ip, extract_cookie,
}

is_hex-hex_digit : (d : ℕ) → d < 16 → is_hex (hex_digit d) ≡ true
is_hex-hex_digit d h = ground arith

-- A text does not go on with a hexadecimal digit.
abbrev pub Stops : Text → Type 0
Stops rest = runs is_hex rest ≡ []

plus-Starts :
    (s rest : Text)
    → Digits is_hex s
    → Stops rest
    → Starts (matches (plus is_hex) (s ++ rest)) s rest
unfolding matches
plus-Starts s rest (c, t, e, h) stop = rw e (runs-Starts is_hex c t rest h stop)

hex_nbr-Starts :
    (n : ℕ) (rest : Text)
    → n < 2 ^ 32
    → Stops rest
    → Starts (matches hex_nbr (format_hex n ++ rest)) (format_hex n) rest
unfolding format_hex
hex_nbr-Starts n rest h stop =
    let digits =
      plus-Starts (hex_digits_of 16 n) rest (hex_digits_of-Digits is_hex is_hex-hex_digit n h)
        stop in
    literal-Starts (codes "0") _ _ (b'x' ∷ hex_digits_of 16 n) rest (
      class-Starts _ (plus is_hex) b'x' (hex_digits_of 16 n ++ rest) (hex_digits_of 16 n) rest refl
        digits)

Stops-end : Stops []
unfolding runs
Stops-end = refl

hex_nbr-whole : (n : ℕ) → n < 2 ^ 32 → find_string hex_nbr (format_hex n) ≡ format_hex n
hex_nbr-whole n h = find_string-Starts hex_nbr (format_hex n) (format_hex n) [] (
    subst (λ s. Starts (matches hex_nbr s) (format_hex n) []) (append_nil (format_hex n))
      (hex_nbr-Starts n [] h Stops-end))

-- The number behind the first key in a flow.
hex_nbr_behind :
    (key pre : Text) (n : ℕ) (rest : Text)
    → n < 2 ^ 32
    → Stops rest
    → Clear key pre (key ++ (format_hex n ++ rest))
    → Clear (codes "0") key (format_hex n)
    → find_string hex_nbr
        (find_string (then_ (literal key) hex_nbr) (pre ++ (key ++ (format_hex n ++ rest))))
      ≡ format_hex n
hex_nbr_behind key pre n rest h stop clear clear_0 =
    ap (find_string hex_nbr) (
      find_string-skip key hex_nbr pre (key ++ (format_hex n ++ rest)) clear
      ∙ find_string-Starts (then_ (literal key) hex_nbr) (key ++ (format_hex n ++ rest))
          (key ++ format_hex n) rest
          (literal-Starts key hex_nbr (format_hex n ++ rest) (format_hex n) rest
            (hex_nbr-Starts n rest h stop)))
    ∙ find_string-skip (codes "0") _ key (format_hex n) clear_0
    ∙ hex_nbr-whole n h

-- No key of the flows has a 0 in it.
tun_id-Clear : (s : Text) → Clear (codes "0") (codes "tun_id=") s
unfolding has_prefix
tun_id-Clear s = (refl, (refl, (refl, (refl, (refl, (refl, (refl, tt)))))))

load-Clear : (s : Text) → Clear (codes "0") (codes "load:") s
unfolding has_prefix
load-Clear s = (refl, (refl, (refl, (refl, (refl, tt)))))

cookie-Clear : (s : Text) → Clear (codes "0") (codes "cookie=") s
unfolding has_prefix
cookie-Clear s = (refl, (refl, (refl, (refl, (refl, (refl, (refl, tt)))))))

-- In a flow with `tun_id=` and a number of 32 bits as `%#x` writes it, where the key does not start
-- before and no hexadecimal digit follows, extractVNI reads the number.
pub extract_vni-format_hex :
    (pre : Text) (vni : ℕ) (rest : Text)
    → vni < 2 ^ 32
    → Stops rest
    → Clear (codes "tun_id=") pre (codes "tun_id=" ++ (format_hex vni ++ rest))
    → extract_vni (pre ++ (codes "tun_id=" ++ (format_hex vni ++ rest))) ≡ vni
unfolding extract_vni
extract_vni-format_hex pre vni rest h stop clear =
    ap (λ s. parse_value 16 32 (trim_left hex_prefix_chars s))
      (hex_nbr_behind (codes "tun_id=") pre vni rest h stop clear (tun_id-Clear _))
    ∙ parse_value-trim_left vni h

-- The same for `load:` and the number of an IPv4 address: extractHostIP reads the address, in its
-- form of sixteen bytes.
pub extract_host_ip-format_hex :
    (pre : Text) (addr : ℕ) (rest : Text)
    → addr < 2 ^ 32
    → Stops rest
    → Clear (codes "load:") pre (codes "load:" ++ (format_hex addr ++ rest))
    → extract_host_ip (pre ++ (codes "load:" ++ (format_hex addr ++ rest)))
      ≡ v4_in_v6_prefix ++ make_ipv4_from_uint32 addr
unfolding extract_host_ip hex_str_to_ipv4 make_ipv4_from_uint32
extract_host_ip-format_hex pre addr rest h stop clear =
    ap hex_str_to_ipv4 (hex_nbr_behind (codes "load:") pre addr rest h stop clear (load-Clear _))
    ∙ ap (λ n. v4_in_v6_prefix ++ make_ipv4_from_uint32 n) (parse_value-trim_left addr h)

-- The same for `cookie=`: extractCookie gives the text of the number.
pub extract_cookie-format_hex :
    (pre : Text) (n : ℕ) (rest : Text)
    → n < 2 ^ 32
    → Stops rest
    → Clear (codes "cookie=") pre (codes "cookie=" ++ (format_hex n ++ rest))
    → extract_cookie (pre ++ (codes "cookie=" ++ (format_hex n ++ rest))) ≡ format_hex n
unfolding extract_cookie
extract_cookie-format_hex pre n rest h stop clear =
    hex_nbr_behind (codes "cookie=") pre n rest h stop clear (cookie-Clear _)
