-- ===== src/Net.antt =====
-- util-src/net.c: the addresses of this host, and addresses as text and as bytes. The list of the
-- interfaces and the conversions of the C library are parameters.
-- Addresses and Convert, below this module, prove what the functions do.
pub mod Addresses
pub mod Convert
pub mod Opened
mod Examples
use prosody_trunk.Base.{
  ℕ, ◌+◌, ◌≡◌, Bool, true, false, not, ◌&&◌, ◌||◌, ◌==◌, Option, none, some, bit_and,
}
use prosody_trunk.Base.{List, [], ◌∷◌, ◌++◌, length, take, get_or, if◌then◌else◌, ◌>>=◌}
use prosody_trunk.Base.Int.{ℤ, pos}
use prosody_trunk.Base.Text.{bytes}
use prosody_trunk.Lua.{Value, nil, integer, string}

-- `type_strings`: which families are asked for.
pub data Families : Type 0 where
  both ipv4 ipv6 : Families

-- The address of an interface: four bytes, sixteen bytes, or one of another family.
pub data Address : Type 0 where
  inet : List ℕ → Address
  inet6 : List ℕ → Address
  other : Address

pub record Interface : Type 0 where
  pub address : Option Address
  pub loopback : Bool

-- 169.254.0.0/16, on bytes in network order.
pub is_ip4_linklocal : List ℕ → Bool
is_ip4_linklocal a = get_or a 0 0 == 169 && get_or a 1 0 == 254

-- The conversions of the C library, and its tests on addresses of IPv6. `inet_pton` finds no address
-- in the text, or fails with an `errno`; what it writes is in the buffer of sixteen bytes, from its
-- beginning on.
pub data Family : Type 0 where
  af_inet af_inet6 : Family

pub data Pton : Type 0 where
  converted : List ℕ → Pton
  invalid : Pton
  failed : ℕ → Pton

pub record Library : Type 0 where
  pub inet_ntop : Family → List ℕ → Option (List ℕ)
  pub inet_pton : Family → List ℕ → Pton
  pub is_linklocal : List ℕ → Bool
  pub is_v4mapped : List ℕ → Bool
  pub is_v4compat : List ℕ → Bool
  pub strerror : ℕ → List ℕ

-- The constants of Linux.
abbrev pub einval : ℕ
einval = 22

abbrev pub eafnosupport : ℕ
eafnosupport = 97

abbrev pub asks_ipv4 : Families → Bool
asks_ipv4 ipv6 = false
asks_ipv4 _ = true

abbrev pub asks_ipv6 : Families → Bool
asks_ipv6 ipv4 = false
asks_ipv6 _ = true

module _ (C : Library) where
  -- What `tmp` is after the tests on one interface; `none` is NULL, also after a `continue`.
  pub address_text : Families → Bool → Address → Option (List ℕ)
  address_text families link_local (inet a) =
      if asks_ipv4 families
      then if not link_local && is_ip4_linklocal a then none else C.inet_ntop af_inet a
      else none
  address_text families link_local (inet6 a) =
      if asks_ipv6 families
      then if not link_local && C.is_linklocal a
        then none
        else if C.is_v4mapped a || C.is_v4compat a
        then none
        else C.inet_ntop af_inet6 a
      else none
  address_text families link_local other = none

  -- The tests of the loop on an interface: its address, and whether it is the loopback.
  pub interface_text : Families → Bool → Option Address → Bool → Option (List ℕ)
  interface_text families link_local none loopback = none
  interface_text families link_local (some a) true = none
  interface_text families link_local (some a) false = address_text families link_local a

  -- `lua_rawseti` with `n++` where there is a text, in front of the entries of later rounds.
  pub set_entry : Option (List ℕ) → ℕ → (ℕ → List (ℕ × List ℕ)) → List (ℕ × List ℕ)
  set_entry none n later = later n
  set_entry (some tmp) n later = (n, tmp) ∷ later (n + 1)

  pub addresses_loop : Families → Bool → List Interface → ℕ → List (ℕ × List ℕ)
  addresses_loop families link_local [] n = []
  addresses_loop families link_local (a ∷ rest) n =
      set_entry (interface_text families link_local a.address a.loopback) n
        (addresses_loop families link_local rest)

  -- The table, or nil and the message for the `errno` of `getifaddrs`.
  pub lc_local_addresses :
      (ℕ → List ℕ) → Families → Bool → Option (List Interface) × ℕ → List Value × List (ℕ × List ℕ)
  lc_local_addresses message families link_local (none, errno) =
      (nil ∷ string (message errno) ∷ [], [])
  lc_local_addresses message families link_local (some addr, errno) =
      ([], addresses_loop families link_local addr 1)

  -- The table on Windows, which does not look at the interfaces.
  pub windows_addresses : Families → List (ℕ × List ℕ)
  windows_addresses families =
      let later = set_entry (if asks_ipv6 families then some (bytes "::") else none) in
      set_entry (if asks_ipv4 families then some (bytes "0.0.0.0") else none) 1
        (λ n. later n (λ m. []))

  pub error_values : ℕ → List Value
  error_values e = nil ∷ string (C.strerror e) ∷ integer (pos e) ∷ []

  -- `strchr(ipaddr, ':')`
  pub has_colon : List ℕ → Bool
  has_colon [] = false
  has_colon (c ∷ s) = c == b':' || has_colon s

  -- The `switch` on the result of `inet_pton`: as many bytes of the buffer as the family has.
  pub pushed_length : Family → ℕ
  pushed_length af_inet6 = 16
  pushed_length af_inet = 4

  pub pton_values : Family → Pton → List Value
  pton_values family (converted buf) = string (take (pushed_length family) buf) ∷ []
  pton_values family (failed e) = error_values e
  pton_values family invalid = error_values einval

  pub lc_pton : List ℕ → List Value
  lc_pton ipaddr =
      let family = (if has_colon ipaddr then af_inet6 else af_inet) in
      pton_values family (C.inet_pton family ipaddr)

  -- What follows the choice of the family; the error is that of `inet_ntop`.
  pub ntop_values : ℕ → Option (List ℕ) → List Value
  ntop_values errno none = error_values errno
  ntop_values errno (some buf) = string buf ∷ []

  pub lc_ntop : ℕ → List ℕ → List Value
  lc_ntop errno ipaddr =
      if length ipaddr == 16
      then ntop_values errno (C.inet_ntop af_inet6 ipaddr)
      else if length ipaddr == 4
      then ntop_values errno (C.inet_ntop af_inet ipaddr)
      else error_values eafnosupport
