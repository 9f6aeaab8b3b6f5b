-- ===== src/Net/Examples.antt =====
-- The functions over a library that writes each byte as so many zeros and a dot, and a colon before an
-- address of IPv6.
use prosody_trunk.Base.{
  ℕ, zero, suc, ◌+◌, ◌-◌, ◌≤◌, ◌⊎◌, inl, inr, sym, ◌∙◌, ◌==◌, ◌++◌, if◌then◌else◌, length,
  replicate, length-append, length-replicate, All, ap, ap₂, arith, ◌≡◌, refl, true, false, Option,
  none, some, List, [], ◌∷◌,
}
use mathlib.Core.Path.{subst}
use prosody_trunk.Base.Text.{bytes}
use prosody_trunk.Lua.{string}
use prosody_trunk.Net.{
  both, inet, Interface, Family, af_inet, af_inet6, Pton, converted, invalid, Library,
  lc_local_addresses, lc_pton, lc_ntop, addresses_loop, interface_text, address_text, set_entry,
  is_ip4_linklocal,
}
use prosody_trunk.Net.Addresses.{usable, shown, numbered, lc_local_addresses-shown}
use prosody_trunk.Net.Convert.{size_of, IsInet, lc_pton-lc_ntop}

-- A number as so many zeros and a dot.
zeros : ℕ → List ℕ → List ℕ
zeros zero s = b'.' ∷ s
zeros (suc n) s = b'0' ∷ zeros n s

unary : List ℕ → List ℕ
unary [] = []
unary (n ∷ a) = zeros n (unary a)

numbers : ℕ → List ℕ → List ℕ
numbers k [] = []
numbers k (c ∷ s) =
    let one = numbers 0 s in let more = numbers (k + 1) s in if c == b'.' then k ∷ one else more

numbers-zeros : (k n : ℕ) (s : List ℕ) → numbers k (zeros n s) ≡ (k + n) ∷ numbers 0 s
unfolding numbers zeros
numbers-zeros k zero s = ap (λ m. m ∷ numbers 0 s) (omega arith)
numbers-zeros k (suc n) s = numbers-zeros (k + 1) n s ∙ ap (λ m. m ∷ numbers 0 s) (omega arith)

numbers-unary : (a : List ℕ) → numbers 0 (unary a) ≡ a
unfolding unary
numbers-unary [] = unfold numbers in refl
numbers-unary (n ∷ a) = numbers-zeros 0 n (unary a) ∙ ap₂ ◌∷◌ (omega arith) (numbers-unary a)

-- The buffer, with zeros behind the address.
buffer : List ℕ → List ℕ
buffer a = a ++ replicate (16 - length a) 0

length-buffer : (a : List ℕ) → length a ≤ 16 → length (buffer a) ≡ 16
unfolding buffer
length-buffer a h = omega (
  arith,
  length-append a (replicate (16 - length a) 0),
  length-replicate {A = ℕ} (16 - length a) 0,
)

write : Family → List ℕ → Option (List ℕ)
write af_inet a = some (unary a)
write af_inet6 a = some (b':' ∷ unary a)

read : Family → List ℕ → Pton
read af_inet s = converted (buffer (numbers 0 s))
read af_inet6 [] = invalid
read af_inet6 (c ∷ s) = converted (buffer (numbers 0 s))

abbrev plain : Library
plain = record {
  inet_ntop = write;
  inet_pton = read;
  is_linklocal = λ a. false;
  is_v4mapped = λ a. false;
  is_v4compat = λ a. false;
  strerror = λ e. [];
}

abbrev quiet : ℕ → List ℕ
quiet = λ e. []

abbrev interfaces : List Interface
interfaces =
    record { address = some (inet (127 ∷ 0 ∷ 0 ∷ 1 ∷ [])); loopback = true }
    ∷ record { address = some (inet (169 ∷ 254 ∷ 0 ∷ 1 ∷ [])); loopback = false }
    ∷ record { address = none; loopback = false }
    ∷ record { address = some (inet (10 ∷ 0 ∷ 0 ∷ 2 ∷ [])); loopback = false }
    ∷ []

-- Only the last address is shown.
one_address :
    lc_local_addresses plain quiet both false (some interfaces, 0)
    ≡ ([], (1, bytes "0000000000...00.") ∷ [])
unfolding lc_local_addresses addresses_loop interface_text address_text set_entry is_ip4_linklocal
    write unary zeros
one_address = refl

lc_local_addresses-shown_example :
    lc_local_addresses plain quiet both false (some interfaces, 0)
    ≡ ([], numbered 1 (shown plain both false (usable interfaces)))
lc_local_addresses-shown_example =
    lc_local_addresses-shown plain quiet both false interfaces 0
      ((refl, omega arith), ((refl, omega arith), (tt, ((refl, omega arith), tt))))

IsDotted : List ℕ → Type 0
IsDotted s = All (λ c. (c ≡ b'.') ⊎ ((b'0' ≤ c) × (c ≤ b'9'))) s

zeros-IsDotted : (n : ℕ) (s : List ℕ) → IsDotted s → IsDotted (zeros n s)
unfolding zeros IsDotted
zeros-IsDotted zero s h = (inl refl, h)
zeros-IsDotted (suc n) s h = (inr (omega arith, omega arith), zeros-IsDotted n s h)

unary-IsDotted : (a : List ℕ) → IsDotted (unary a)
unfolding unary
unary-IsDotted [] = unfold IsDotted in tt
unary-IsDotted (n ∷ a) = zeros-IsDotted n (unary a) (unary-IsDotted a)

plain_writes :
    (f : Family) (a : List ℕ) → length a ≡ size_of f → (s : List ℕ) × (write f a ≡ some s)
unfolding write
plain_writes af_inet a h = (_, refl)
plain_writes af_inet6 a h = (_, refl)

plain_reads :
    (f : Family) (a s : List ℕ)
    → length a ≡ size_of f
    → write f a ≡ some s
    → (rest : List ℕ) × (read f s ≡ converted (a ++ rest)) × (length (a ++ rest) ≡ 16)
unfolding write read buffer
plain_reads af_inet a s h e =
    let q : unary a ≡ s = cc e in
    (
      _,
      ap (λ t. read af_inet t) (sym q) ∙ ap (λ t. converted (buffer t)) (numbers-unary a),
      length-buffer a (omega arith),
    )
plain_reads af_inet6 a s h e =
    let q : b':' ∷ unary a ≡ s = cc e in
    (
      _,
      ap (λ t. read af_inet6 t) (sym q) ∙ ap (λ t. converted (buffer t)) (numbers-unary a),
      length-buffer a (omega arith),
    )

plain-IsInet : IsInet plain
unfolding write
plain-IsInet = record {
  writes = plain_writes;
  reads = plain_reads;
  coloned = λ a s h e. ([], unary a, (let q : b':' ∷ unary a ≡ s = cc e in sym q));
  dotted = λ a s h e.
      let q : unary a ≡ s = cc e in unfold IsDotted in subst IsDotted q (unary-IsDotted a);
}

lc_pton-lc_ntop_example :
    (s : List ℕ) × (lc_ntop plain 0 (10 ∷ 0 ∷ 0 ∷ 2 ∷ []) ≡ string s ∷ [])
    × (lc_pton plain s ≡ string (10 ∷ 0 ∷ 0 ∷ 2 ∷ []) ∷ [])
lc_pton-lc_ntop_example = lc_pton-lc_ntop plain plain-IsInet 0 af_inet (10 ∷ 0 ∷ 0 ∷ 2 ∷ []) refl
