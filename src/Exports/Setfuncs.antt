-- ===== src/Exports/Setfuncs.antt =====
-- What holds of the functions in an array holds of the table that `luaL_setfuncs` enters them in.
use prosody_trunk.Base.{ℕ, Bool-cases, inl, inr, List, [], ◌∷◌, All}
use prosody_trunk.Base.Text.{equal}
use prosody_trunk.Exports.{Field, function, Table, Reg, setfield, setfuncs}

module _ {ℓ} {F : Type ℓ} (P : F → Type 0) where
  -- The field holds no function, or one of which the predicate holds.
  abbrev pub FieldHas : Field F → Type 0
  FieldHas (function f) = P f
  FieldHas _ = Unit

  abbrev pub TableHas : Table F → Type 0
  TableHas t = (key : List ℕ) → FieldHas (t key)

  pub setfield-TableHas :
      (t : Table F) (name : List ℕ) (v : Field F)
      → FieldHas v
      → TableHas t
      → TableHas (setfield t name v)
  setfield-TableHas t name v h k key = elim (Bool-cases (equal name key)) [
    | inl e ↦ rw e h
    | inr e ↦ rw e (k key)
  ]

  pub setfuncs-TableHas :
      (exports : Reg F) (t : Table F)
      → All (λ e. P e.1) exports
      → TableHas t
      → TableHas (setfuncs exports t)
  setfuncs-TableHas [] t h k = k
  setfuncs-TableHas ((name, f) ∷ exports) t (p, h) k =
      setfuncs-TableHas exports (setfield t name (function f)) h
        (setfield-TableHas t name (function f) p k)
