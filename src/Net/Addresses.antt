-- ===== src/Net/Addresses.antt =====
-- `lc_local_addresses`: which addresses stand in the table, and where.
use prosody_trunk.Base.{
  ℕ, ◌+◌, ◌*◌, ◌<◌, ◌≡◌, refl, ap, ◌∙◌, Bool, true, false, not, ◌&&◌, ◌||◌, Option, none, some,
  Option-cases, inl, inr, Bool-cases, arith,
}
use prosody_trunk.Base.{List, [], ◌∷◌, All, length, leb, if◌then◌else◌}
use prosody_trunk.Net.{
  Families, both, ipv4, ipv6, Address, inet, inet6, other, Interface, is_ip4_linklocal, af_inet,
  af_inet6, Library, asks_ipv4, asks_ipv6, address_text, interface_text, set_entry, addresses_loop,
  lc_local_addresses,
}

-- The specification: whether the caller asks for IPv4, and for IPv6.
pub wants_ipv4 : Families → Bool
wants_ipv4 both = true
wants_ipv4 ipv4 = true
wants_ipv4 ipv6 = false

pub wants_ipv6 : Families → Bool
wants_ipv6 both = true
wants_ipv6 ipv4 = false
wants_ipv6 ipv6 = true

-- The block 169.254.0.0/16 of RFC 3927.
pub in_block : List ℕ → Bool
in_block (a ∷ b ∷ rest) = leb (169 * 256 + 254) (a * 256 + b) && leb (a * 256 + b) (169 * 256 + 254)
in_block _ = false

-- An address of IPv4 has four bytes.
abbrev pub IsAddress : Address → Type 0
IsAddress (inet a) = (length a ≡ 4) × All (λ b. b < 256) a
IsAddress _ = Unit {0}

abbrev pub MayBeAddress : Option Address → Type 0
MayBeAddress none = Unit {0}
MayBeAddress (some a) = IsAddress a

abbrev pub HasAddress : Interface → Type 0
HasAddress i = MayBeAddress i.address

-- An address is shown if its family is asked for, it is no link-local one or those are asked for too,
-- and it is no address of IPv4 in the form of IPv6.
pub is_shown : Library → Families → Bool → Address → Bool
is_shown C families link_local (inet a) = wants_ipv4 families && (link_local || not (in_block a))
is_shown C families link_local (inet6 a) =
    wants_ipv6 families
    && (link_local || not (C.is_linklocal a))
    && not (C.is_v4mapped a)
    && not (C.is_v4compat a)
is_shown C families link_local other = false

pub text_of : Library → Address → Option (List ℕ)
text_of C (inet a) = C.inet_ntop af_inet a
text_of C (inet6 a) = C.inet_ntop af_inet6 a
text_of C other = none

-- The addresses of the interfaces that have one and are not the loopback.
pub usable_cons : Option Address → Bool → List Address → List Address
usable_cons none loopback rest = rest
usable_cons (some a) true rest = rest
usable_cons (some a) false rest = a ∷ rest

unfoldable pub usable : List Interface → List Address
unfolding usable_cons
usable [] = []
usable (i ∷ rest) = usable_cons i.address i.loopback (usable rest)

-- The texts of those that are shown and that the library can write.
pub shown : Library → Families → Bool → List Address → List (List ℕ)
shown C families link_local [] = []
shown C families link_local (a ∷ rest) =
    let others = shown C families link_local rest in
    if is_shown C families link_local a
    then elim (text_of C a) [ none ↦ others | some t ↦ t ∷ others ]
    else others

pub numbered : ℕ → List (List ℕ) → List (ℕ × List ℕ)
numbered n [] = []
numbered n (t ∷ ts) = (n, t) ∷ numbered (n + 1) ts

-- The text of one address, by the specification.
pub shown_text : Library → Families → Bool → Address → Option (List ℕ)
shown_text C families link_local a = if is_shown C families link_local a then text_of C a else none

wants_ipv4_lem : (families : Families) → asks_ipv4 families ≡ wants_ipv4 families
unfolding wants_ipv4
wants_ipv4_lem both = refl
wants_ipv4_lem ipv4 = refl
wants_ipv4_lem ipv6 = refl

wants_ipv6_lem : (families : Families) → asks_ipv6 families ≡ wants_ipv6 families
unfolding wants_ipv6
wants_ipv6_lem both = refl
wants_ipv6_lem ipv4 = refl
wants_ipv6_lem ipv6 = refl

in_block_lem : (a : List ℕ) → All (λ b. b < 256) a → is_ip4_linklocal a ≡ in_block a
unfolding is_ip4_linklocal in_block
in_block_lem [] h = refl
in_block_lem (a ∷ []) h = ground arith
in_block_lem (a ∷ b ∷ rest) (ha, (hb, h)) = ground arith

address_text_lem :
    (C : Library) (families : Families) (link_local : Bool) (a : Address)
    → IsAddress a
    → address_text C families link_local a ≡ shown_text C families link_local a
unfolding address_text shown_text is_shown text_of
address_text_lem C families link_local (inet a) (four, h) =
    ground (arith, wants_ipv4_lem families, in_block_lem a h)
address_text_lem C families link_local (inet6 a) h = ground (arith, wants_ipv6_lem families)
address_text_lem C families link_local other h = refl

-- One address, with the entries of those behind it.
entry-shown :
    (C : Library) (families : Families) (link_local : Bool) (a : Address) (rest : List Address)
    (n : ℕ) (later : ℕ → List (ℕ × List ℕ))
    → ((m : ℕ) → later m ≡ numbered m (shown C families link_local rest))
    → set_entry C (shown_text C families link_local a) n later
      ≡ numbered n (shown C families link_local (a ∷ rest))
unfolding set_entry shown shown_text numbered
entry-shown C families link_local a rest n later ih =
    elim (Bool-cases (is_shown C families link_local a)) [
      | inl seen ↦ elim (Option-cases (text_of C a)) [
        | inl e ↦ rw (set_entry, seen, e) (ih n)
        | inr (t, e) ↦ rw (set_entry, seen, e) (ap (λ l. (n, t) ∷ l) (ih (n + 1)))
      ]
      | inr hidden ↦ rw (set_entry, hidden) (ih n)
    ]

interface-shown :
    (C : Library) (families : Families) (link_local : Bool) (o : Option Address) (loopback : Bool)
    (rest : List Address) (n : ℕ) (later : ℕ → List (ℕ × List ℕ))
    → MayBeAddress o
    → ((m : ℕ) → later m ≡ numbered m (shown C families link_local rest))
    → set_entry C (interface_text C families link_local o loopback) n later
      ≡ numbered n (shown C families link_local (usable_cons o loopback rest))
unfolding interface_text usable_cons
interface-shown C families link_local none loopback rest n later k ih = unfold set_entry in ih n
interface-shown C families link_local (some a) true rest n later k ih = unfold set_entry in ih n
interface-shown C families link_local (some a) false rest n later k ih =
    ap (λ t. set_entry C t n later) (address_text_lem C families link_local a k)
    ∙ entry-shown C families link_local a rest n later ih

loop-numbered :
    (C : Library) (families : Families) (link_local : Bool) (addr : List Interface) (n : ℕ)
    → All HasAddress addr
    → addresses_loop C families link_local addr n
      ≡ numbered n (shown C families link_local (usable addr))
unfolding addresses_loop usable usable_cons
loop-numbered C families link_local [] n h =
    unfold usable in unfold shown in unfold numbered in refl
loop-numbered C families link_local (i ∷ rest) n (k, h) =
    interface-shown C families link_local i.address i.loopback (usable rest) n
      (addresses_loop C families link_local rest) k
      (λ m. loop-numbered C families link_local rest m h)

-- Where the interfaces can be listed, the table holds, numbered from one on and in their order, the
-- texts of the addresses of all interfaces that have one and are not the loopback, as far as the
-- address is shown: its family is asked for, link-local ones only if they are, which for IPv4 is the
-- block 169.254.0.0/16, and no address of IPv4 in the form of IPv6. Addresses of IPv4 have four bytes.
pub lc_local_addresses-shown :
    (C : Library) (message : ℕ → List ℕ) (families : Families) (link_local : Bool)
    (addr : List Interface) (errno : ℕ)
    → All HasAddress addr
    → lc_local_addresses C message families link_local (some addr, errno)
      ≡ ([], numbered 1 (shown C families link_local (usable addr)))
unfolding lc_local_addresses
lc_local_addresses-shown C message families link_local addr errno h =
    ap (λ t. ([], t)) (loop-numbered C families link_local addr 1 h)
