-- ===== src/Net/Runs.antt =====
-- A resolver that knows three addresses, and the blocks around them.
use simple_ntpd.Common.{
  ℕ, ◌-◌, ◌/◌, ◌^◌, ◌≡◌, ◌==◌, refl, arith, false, Option, none, some, if◌then◌else◌,
}
use simple_ntpd.Common.Int.{negsuc}
use simple_ntpd.Common.Text.{
  digits_of, to_string, Bytes, codes, equal, find, stoi, read_number, skip_space, read_digits,
}
use simple_ntpd.Common.Result.{ok, exception}
use simple_ntpd.Net.{is_ip_in_cidr, in_block, same_network}
use simple_ntpd.Net.Cidr.{in_cidr_iff}

-- 10.0.0.0, 10.0.0.7 and 10.1.0.7
abbrev address_of : Bytes → Option ℕ
address_of text =
    if equal text (codes "10.0.0.0")
    then some 0x0a000000
    else if equal text (codes "10.0.0.7")
    then some 0x0a000007
    else if equal text (codes "10.1.0.7")
    then some 0x0a010007
    else none

outside_runs : is_ip_in_cidr address_of (codes "10.1.0.7") (codes "10.0.0.0/16") ≡ ok false
unfolding is_ip_in_cidr in_block same_network find stoi read_number skip_space read_digits equal
outside_runs = refl

malformed_runs : is_ip_in_cidr address_of (codes "10.1.0.7") (codes "10.0.0.0/x") ≡ exception
unfolding is_ip_in_cidr in_block find stoi read_number skip_space read_digits
malformed_runs = refl

in_cidr_iff_example :
    is_ip_in_cidr address_of (codes "10.0.0.7") (codes "10.0.0.0/8")
    ≡ ok (0x0a000007 / 2 ^ (32 - 8) == 0x0a000000 / 2 ^ (32 - 8))
unfolding find stoi read_number skip_space read_digits equal
in_cidr_iff_example =
    in_cidr_iff address_of (codes "10.0.0.7") (codes "10.0.0.0/8") 8 8 0x0a000007 0x0a000000 refl
      refl (omega arith) refl refl (omega arith) (omega arith)

stoi_runs : stoi (codes " -12x") ≡ some (negsuc 11)
unfolding stoi read_number skip_space read_digits
stoi_runs = refl

to_string_runs : to_string 65535 ≡ codes "65535"
unfolding to_string digits_of
to_string_runs = refl
