-- ===== src/Threads/Invariant/Effects.antt =====
-- What a step of one thread changes, for itself and for the others.
use melsec_mc_net.Prelude.{ℕ, ◌≡◌, ◌≢◌, ◌⊎◌, inl, refl, Bool, true, false, Option, none, some, List}
use melsec_mc_net.Machine.{TxLock}
use melsec_mc_net.Threads.Table.{Owned, Held, Unknown, OneSlot}
use melsec_mc_net.Threads.Invariant.{guards, transacts, Knows}
use melsec_mc_net.Threads.{
  Shared, Pc, waiting, working, sending, writing, idle, entering, looking, creating, returning,
  locking, inside, leaving, seeking, found, unlocking,
}

-- Two threads do not hold `g_connection_mutex` together, nor the mutex of one descriptor.
pub record Apart (p q : Pc) : Type 0 where
  pub one_guard : guards p ≡ true → guards q ≡ false
  pub one_transaction : (fd : ℕ) → transacts p ≡ some fd → transacts q ≢ some fd

pub record Effect (m : Shared) (p : Pc) (m' : Shared) (p' : Pc) : Type 0 where
  pub enters : guards p' ≡ true → (m'.guarded ≡ true) × ((guards p ≡ true) ⊎ (m.guarded ≡ false))
  pub stays : m.guarded ≡ true → guards p ≡ false → m'.guarded ≡ true
  pub one : OneSlot m'.locks
  pub begins :
      (fd : ℕ)
      → transacts p' ≡ some fd
      → (transacts p ≡ some fd) ⊎ ((j : ℕ) → Held m.locks fd j → ⊥)
  pub learns : Knows m'.locks p'
  pub spares : (q : Pc) → Apart p q → Knows m.locks q → Knows m'.locks q

-- What a thread knows is kept where the slots are, and the hold of its own descriptor's mutex.
pub Knows-kept :
    (locks locks' : List TxLock)
    → ((fd j : ℕ) → Owned locks fd j → Owned locks' fd j)
    → (q : Pc) → ((fd : ℕ) → q ≡ creating fd → Unknown locks fd → Unknown locks' fd)
    → ((fd j : ℕ) → transacts q ≡ some fd → Held locks fd j → Held locks' fd j)
    → Knows locks q
    → Knows locks' q
Knows-kept locks locks' owned idle new held k = tt
Knows-kept locks locks' owned waiting new held k = tt
Knows-kept locks locks' owned working new held k = tt
Knows-kept locks locks' owned (entering fd) new held k = tt
Knows-kept locks locks' owned (looking fd) new held k = tt
Knows-kept locks locks' owned (creating fd) new held k = new fd refl k
Knows-kept locks locks' owned (returning fd none) new held k = tt
Knows-kept locks locks' owned (returning fd (some i)) new held k = owned fd i k
Knows-kept locks locks' owned (locking fd i) new held k = owned fd i k
Knows-kept locks locks' owned (inside fd) new held (i, h) = (i, held fd i refl h)
Knows-kept locks locks' owned (sending fd) new held (i, h) = (i, held fd i refl h)
Knows-kept locks locks' owned (writing fd) new held (i, h) = (i, held fd i refl h)
Knows-kept locks locks' owned (leaving fd) new held (i, h) = (i, held fd i refl h)
Knows-kept locks locks' owned (seeking fd) new held (i, h) = (i, held fd i refl h)
Knows-kept locks locks' owned (found fd none) new held k = k
Knows-kept locks locks' owned (found fd (some i)) new held k = held fd i refl k
Knows-kept locks locks' owned (unlocking fd i) new held k = held fd i refl k

abbrev pub Ensures : Shared → Pc → Option (Shared × Pc) → Type 0
Ensures m p none = Unit
Ensures m p (some (m', p')) = Effect m p m' p'

module _ (m : Shared) (one : OneSlot m.locks) where
  -- A step that leaves the table alone.
  pub Effect-of_same_table :
      (p p' : Pc) (b : Bool)
      → (guards p' ≡ true → (b ≡ true) × ((guards p ≡ true) ⊎ (m.guarded ≡ false)))
      → (m.guarded ≡ true → guards p ≡ false → b ≡ true)
      → ((fd : ℕ) → transacts p' ≡ some fd → transacts p ≡ some fd)
      → Knows m.locks p'
      → Effect m p (record m { guarded = b }) p'
  Effect-of_same_table p p' b enters stays goes_on learns = record {
    enters = enters;
    stays = stays;
    one = one;
    begins = λ fd e. inl (goes_on fd e);
    learns = learns;
    spares = λ q apart k. k;
  }
