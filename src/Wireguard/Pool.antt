-- ===== src/Wireguard/Pool.antt =====
-- `ipPool` of gateway/pkg/wireguard/manager.go. The last octet runs from 2 to 254.
pub mod Allocation
use sovereign_vpn.Base.{
  ℕ, zero, suc, ◌+◌, ◌-◌, ◌%◌, Bool, true, false, Option, none, some, List, [], ◌∷◌, ◌++◌,
  if◌then◌else◌, text_eq,
}
use sovereign_vpn.Text.{Text, text, format_uint}
use sovereign_vpn.Map.{Map, lookup, insert, delete}

pub record IpPool : Type 0 where
  -- the first three bytes of the base address
  pub base0 : ℕ
  pub base1 : ℕ
  pub base2 : ℕ
  pub allocated : Map Text Bool
  pub next_octet : ℕ

-- `net.ParseCIDR` and `To4` are given: the first three bytes of the subnet's address.
unfoldable pub new_ip_pool : ℕ → ℕ → ℕ → IpPool
new_ip_pool a b c = record { base0 = a; base1 = b; base2 = c; allocated = []; next_octet = 2 }

-- `fmt.Sprintf("%d.%d.%d.%d", …)`
unfoldable pub ip_text : IpPool → ℕ → Text
ip_text p octet =
    format_uint p.base0
    ++ (text "."
        ++ (format_uint p.base1
            ++ (text "." ++ (format_uint p.base2 ++ (text "." ++ format_uint octet)))))

-- A read of a map of Booleans: false for a missing key.
abbrev pub or_false : Option Bool → Bool
or_false none = false
or_false (some b) = b

abbrev pub is_taken : IpPool → Text → Bool
is_taken p ip = or_false (lookup ip p.allocated)

abbrev pub octet_at : IpPool → ℕ → ℕ
octet_at p i = (p.next_octet - 2 + i) % 253 + 2

-- The loop of `Allocate` with the rounds that are left.
try_from : ℕ → ℕ → IpPool → IpPool × Option Text
try_from zero i p = (p, none)
try_from (suc rounds) i p =
    let more = try_from rounds (i + 1) p in
    let octet = octet_at p i in
    let ip = ip_text p octet in
    if is_taken p ip
    then more
    else (record p { allocated = insert ip true p.allocated; next_octet = octet + 1 }, some ip)

unfoldable pub allocate : IpPool → IpPool × Option Text
unfolding try_from
allocate p = try_from 253 0 p

unfoldable pub release : IpPool → Text → IpPool
release p ip = record p { allocated = delete ip p.allocated }
