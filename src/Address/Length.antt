-- ===== src/Address/Length.antt =====
-- The number of points of an address that is parsed.
use melsec_mc_net.Prelude.{
  ℕ, ◌≡◌, refl, sym, ap, ◌∙◌, Bool, true, false, some, List, [], ◌∷◌, if◌then◌else◌,
}
use melsec_mc_net.Address.{
  AddressData, DataType, Analysis, rejected, parsed, fault, located, analyse_s, analyse_z,
  analyse_t, analyse_c, analyse, mc_analysis_address,
}

abbrev points : ℕ → Analysis → ℕ
points n rejected = n
points n (parsed a) = a.length
points n fault = n

-- An address that is parsed has this number of points.
record HasLength (n : ℕ) (r : Analysis) : Type 0 where
  counted : points n r ≡ n

either :
    (n : ℕ) (b : Bool) (x y : Analysis)
    → HasLength n x
    → HasLength n y
    → HasLength n (if b then x else y)
either n true x y h k = h
either n false x y h k = k

located-HasLength : (n : ℕ) (t : DataType) (rest : List ℕ) → HasLength n (located n t rest)
unfolding located
located-HasLength n t rest = record { counted = refl }

fault-HasLength : (n : ℕ) → HasLength n fault
fault-HasLength n = record { counted = refl }

zero-HasLength :
    (n : ℕ) (t : DataType)
    → HasLength n (parsed (record { data_type = t; address_start = 0; length = n }))
zero-HasLength n t = record { counted = refl }

ruleset lengths = (either, located-HasLength, fault-HasLength, zero-HasLength)

analyse_s-HasLength : (n : ℕ) (rest : List ℕ) → HasLength n (analyse_s n rest)
unfolding analyse_s
analyse_s-HasLength n rest = search lengths depth 20

analyse_z-HasLength : (n : ℕ) (rest : List ℕ) → HasLength n (analyse_z n rest)
unfolding analyse_z
analyse_z-HasLength n rest = search lengths depth 20

analyse_t-HasLength : (n : ℕ) (rest : List ℕ) → HasLength n (analyse_t n rest)
unfolding analyse_t
analyse_t-HasLength n [] = fault-HasLength n
analyse_t-HasLength n (c ∷ rest) = search lengths depth 20

analyse_c-HasLength : (n : ℕ) (rest : List ℕ) → HasLength n (analyse_c n rest)
unfolding analyse_c
analyse_c-HasLength n [] = fault-HasLength n
analyse_c-HasLength n (c ∷ rest) = search lengths depth 20

analyse-HasLength : (n c : ℕ) (rest : List ℕ) → HasLength n (analyse n c rest)
unfolding analyse
analyse-HasLength n c rest =
    search
      (lengths, analyse_s-HasLength, analyse_z-HasLength, analyse_t-HasLength, analyse_c-HasLength)
      depth 20

mc_analysis_address-HasLength :
    (address : List ℕ) (n : ℕ) → HasLength n (mc_analysis_address (some address) n)
unfolding mc_analysis_address
mc_analysis_address-HasLength [] n = record { counted = refl }
mc_analysis_address-HasLength (c ∷ rest) n = analyse-HasLength n c rest

-- An address that is parsed for a number of points is for exactly this number of them.
pub length-parsed :
    (address : List ℕ) (n : ℕ) (a : AddressData)
    → mc_analysis_address (some address) n ≡ parsed a
    → a.length ≡ n
length-parsed address n a e =
    let h = mc_analysis_address-HasLength address n in sym (ap (points n) e) ∙ h.counted
