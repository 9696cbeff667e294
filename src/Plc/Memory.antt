-- ===== src/Plc/Memory.antt =====
-- What is stored is read again, and what is stored elsewhere does not change it.
use melsec_mc_net.Prelude.{
  ℕ, ◌+◌, ◌*◌, ◌<◌, ◌≤◌, ◌==◌, ◌&&◌, ◌≡◌, ◌≢◌, ◌⊎◌, inl, inr, refl, ap, ◌∙◌, if◌then◌else◌, List,
  [], ◌∷◌, arith, length, zero, suc, Bool-cases, Bool, true, false, All,
}
use mathlib.Core.Path.{ap₂}
use melsec_mc_net.Command.Request.{Request}
use melsec_mc_net.Response.Frame.{ResponseFrame}
use melsec_mc_net.Plc.{answer, Memory, put, store, peek, serve, serve_all}

-- The place is not one of these.
abbrev pub Outside : ℕ → ℕ → ℕ → ℕ → ℕ → Type 0
Outside code place n c p = (c ≢ code) ⊎ (p < place) ⊎ (place + n ≤ p)

put_here : (code place b : ℕ) (mem : Memory) → put code place b mem code place ≡ b
unfolding put
put_here code place b mem = ground arith

put_outside :
    (code place b c p : ℕ) (mem : Memory)
    → (c ≢ code) ⊎ (p ≢ place)
    → put code place b mem c p ≡ mem c p
unfolding put
put_outside code place b c p mem (inl other) = ground (arith, other)
put_outside code place b c p mem (inr other) = ground (arith, other)

elsewhere : (code place n c p : ℕ) → Outside code place (suc n) c p → (c ≢ code) ⊎ (p ≢ place)
elsewhere code place n c p (inl other) = inl other
elsewhere code place n c p (inr (inl below)) = inr (λ e. omega (arith, e))
elsewhere code place n c p (inr (inr above)) = inr (λ e. omega (arith, e))

further : (code place n c p : ℕ) → Outside code place (suc n) c p → Outside code (suc place) n c p
further code place n c p (inl other) = inl other
further code place n c p (inr (inl below)) = inr (inl (omega arith))
further code place n c p (inr (inr above)) = inr (inr (omega arith))

pub store-Outside :
    (code place : ℕ) (bytes : List ℕ) (c p : ℕ) (mem : Memory)
    → Outside code place (length bytes) c p
    → store code place bytes mem c p ≡ mem c p
unfolding store
store-Outside code place [] c p mem out = refl
store-Outside code place (b ∷ bytes) c p mem out =
    store-Outside code (suc place) bytes c p (put code place b mem)
      (further code place (length bytes) c p out)
    ∙ put_outside code place b c p mem (elsewhere code place (length bytes) c p out)

pub peek-store :
    (code place : ℕ) (bytes : List ℕ) (mem : Memory)
    → peek code place (length bytes) (store code place bytes mem) ≡ bytes
unfolding peek store
peek-store code place [] mem = refl
peek-store code place (b ∷ bytes) mem =
    ap₂ (λ (x : ℕ) (xs : List ℕ). x ∷ xs)
      (store-Outside code (suc place) bytes code place (put code place b mem)
          (inr (inl (omega arith)))
        ∙ put_here code place b mem)
      (peek-store code (suc place) bytes (put code place b mem))

-- Two memories that agree on what is read.
pub peek_agree :
    (code place n : ℕ) (mem mem' : Memory)
    → ((p : ℕ) → place ≤ p → p < place + n → mem code p ≡ mem' code p)
    → peek code place n mem ≡ peek code place n mem'
unfolding peek
peek_agree code place zero mem mem' same = refl
peek_agree code place (suc n) mem mem' same =
    ap₂ (λ (x : ℕ) (xs : List ℕ). x ∷ xs) (same place (omega arith) (omega arith))
      (peek_agree code (suc place) n mem mem' (λ p from to. same p (omega arith) (omega arith)))

-- The request is not about these words.
abbrev pub Spares : ℕ → ℕ → ℕ → Request → Type 0
Spares code number points r =
    (code ≢ r.device_code)
    ⊎ (number + points ≤ r.device_number)
    ⊎ (r.device_number + r.points ≤ number)

spared :
    (code number points p : ℕ) (r : Request)
    → Spares code number points r
    → length r.values ≡ 2 * r.points
    → 2 * number ≤ p
    → p < 2 * number + 2 * points
    → Outside r.device_code (2 * r.device_number) (length r.values) code p
spared code number points p r (inl other) count from to = inl other
spared code number points p r (inr (inl after)) count from to = inr (inl (omega arith))
spared code number points p r (inr (inr before)) count from to = inr (inr (omega arith))

abbrev reads : Request → Bool
reads r = r.command == 0x0401 && r.subcommand == 0

abbrev writes : Request → Bool
writes r = r.command == 0x1401 && r.subcommand == 0 && length r.values == 2 * r.points

pub serve-read :
    (r : Request) (mem : Memory)
    → reads r ≡ true
    → serve r mem ≡ (mem, answer 0 0 (peek r.device_code (2 * r.device_number) (2 * r.points) mem))
unfolding serve
serve-read r mem e = rw (e, if◌then◌else◌) refl

pub serve-write :
    (r : Request) (mem : Memory)
    → reads r ≡ false
    → writes r ≡ true
    → serve r mem ≡ (store r.device_code (2 * r.device_number) r.values mem, answer 0 0 [])
unfolding serve
serve-write r mem not_read e = rw (not_read, e, if◌then◌else◌) refl

serve-refused :
    (r : Request) (mem : Memory)
    → reads r ≡ false
    → writes r ≡ false
    → serve r mem ≡ (mem, answer 0x59 0xc0 [])
unfolding serve
serve-refused r mem not_read e = rw (not_read, e, if◌then◌else◌) refl

abbrev after : Memory × ResponseFrame → Memory
after t = t.0

-- What a request does to the memory.
serve-cases :
    (r : Request) (mem : Memory)
    → ((serve r mem).0 ≡ mem)
      ⊎ ((length r.values ≡ 2 * r.points)
          × ((serve r mem).0 ≡ store r.device_code (2 * r.device_number) r.values mem))
serve-cases r mem = elim (Bool-cases (reads r)) [
  | inl read ↦ inl (ap after (serve-read r mem read))
  | inr not_read ↦ elim (Bool-cases (writes r)) [
    | inl write ↦ inr (ground (arith, write), ap after (serve-write r mem not_read write))
    | inr not_write ↦ inl (ap after (serve-refused r mem not_read not_write))
  ]
]

serve-Spares :
    (code number points p : ℕ) (r : Request) (mem : Memory)
    → Spares code number points r
    → 2 * number ≤ p
    → p < 2 * number + 2 * points
    → (serve r mem).0 code p ≡ mem code p
serve-Spares code number points p r mem spares from to = elim (serve-cases r mem) [
  | inl kept ↦ ap (λ (m : Memory). m code p) kept
  | inr (count, stored) ↦
      ap (λ (m : Memory). m code p) stored
      ∙ store-Outside r.device_code (2 * r.device_number) r.values code p mem
          (spared code number points p r spares count from to)
]

-- Requests that are not about these words leave them as they are.
pub serve_all-Spares :
    (code number points p : ℕ) (requests : List Request) (mem : Memory)
    → All (Spares code number points) requests
    → 2 * number ≤ p
    → p < 2 * number + 2 * points
    → serve_all requests mem code p ≡ mem code p
unfolding serve_all
serve_all-Spares code number points p [] mem all from to = refl
serve_all-Spares code number points p (r ∷ requests) mem (this, others) from to =
    serve_all-Spares code number points p requests (serve r mem).0 others from to
    ∙ serve-Spares code number points p r mem this from to
