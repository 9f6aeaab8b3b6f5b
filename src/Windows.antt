-- ===== src/Windows.antt =====
-- util-src/windows.c: the addresses of the name servers as text, and the colour of the console. The
-- calls of Windows are arguments, with the number of the last error where they fail.
pub mod Quads
pub mod Opened
mod Examples
use prosody_trunk.Base.{
  ℕ, zero, suc, ◌+◌, ◌/◌, ◌%◌, ◌^◌, Bool, true, false, Option, none, some, List, [], ◌∷◌, ◌++◌, map,
  ltb, ◌==◌, if◌then◌else◌, ◌⊎◌, inl, inr,
}
use prosody_trunk.Base.Int.{ℤ, pos}
use prosody_trunk.Base.Text.{bytes}
use prosody_trunk.Lua.{Value, nil, boolean, integer, string}

-- "%d" of a number below 1000.
unfoldable pub decimal : ℕ → List ℕ
decimal n =
    if ltb n 10
    then (48 + n) ∷ []
    else if ltb n 100
    then (48 + n / 10) ∷ (48 + n % 10) ∷ []
    else (48 + n / 100) ∷ (48 + n / 10 % 10) ∷ (48 + n % 10) ∷ []

-- The four bytes of an address, the lowest one first, with dots between them.
pub ip_str : ℕ → List ℕ
ip_str ip =
    decimal (ip % 256)
    ++ (46 ∷ decimal (ip / 2 ^ 8 % 256)
        ++ (46 ∷ decimal (ip / 2 ^ 16 % 256) ++ (46 ∷ decimal (ip / 2 ^ 24 % 256))))

-- The answer of DnsQueryConfig: the addresses, or a status. A table for Lua is the list of its
-- values at 1, 2 and so on.
pub lget_nameservers : (ℕ → List ℕ) → List ℕ ⊎ ℕ → List Value ⊎ List Value
lget_nameservers show (inl ips) = inl (map (λ ip. string (ip_str ip)) ips)
lget_nameservers show (inr status) =
    inr (nil ∷ string (bytes "DnsQueryConfig returned " ++ show status) ∷ [])

-- The console: its handle, if that is valid, and the calls on it. `last_error` is what GetLastError
-- returns after a failed call, as text.
pub record Console : Type 1 where
  pub World : Type 0
  pub handle : Option ℕ
  pub cursor : World → ℕ → Option ℕ
  pub read_attribute : World → ℕ → ℕ → Option ℕ
  pub set_attribute : World → ℕ → ℤ → Bool × World
  pub last_error : List ℕ

module _ (console : Console) where
  pub lerror : List ℕ → List Value
  lerror name = nil ∷ string (name ++ bytes ": " ++ console.last_error) ∷ []

  pub color_read : Option ℕ → List Value
  color_read none = lerror (bytes "ReadConsoleOutputAttribute")
  color_read (some color) = integer (pos color) ∷ []

  pub color_at : console.World → ℕ → Option ℕ → List Value
  color_at w h none = lerror (bytes "GetConsoleScreenBufferInfo")
  color_at w h (some position) = color_read (console.read_attribute w h position)

  pub get_color : console.World → Option ℕ → List Value
  get_color w none = lerror (bytes "GetStdHandle")
  get_color w (some h) = color_at w h (console.cursor w h)

  pub lget_consolecolor : console.World → List Value
  lget_consolecolor w = get_color w console.handle

  pub color_set : Bool × console.World → List Value × console.World
  color_set (true, w) = (boolean true ∷ [], w)
  color_set (false, w) = (lerror (bytes "SetConsoleTextAttribute"), w)

  pub set_color : console.World → ℤ → Option ℕ → List Value × console.World
  set_color w color none = (lerror (bytes "GetStdHandle"), w)
  set_color w color (some h) = color_set (console.set_attribute w h color)

  pub lset_consolecolor : console.World → ℤ → List Value × console.World
  lset_consolecolor w color = set_color w color console.handle
