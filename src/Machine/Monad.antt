-- ===== src/Machine/Monad.antt =====
-- The state and the actions on it.
use melsec_mc_net.Prelude.{
  ap, sym, ◌∙◌, ◌≡◌, ℕ, Bool, true, false, Option, none, some, List, [], ◌∷◌, length,
}
use melsec_mc_net.Machine.Events.{SendEvent, RecvEvent}

-- `plc_network_address`
pub record NetworkAddress : Type 0 where
  pub network_number : ℕ
  pub station_number : ℕ

-- `mc_comm_config_t`; each field is the bit pattern of an `int`.
pub record CommConfig : Type 0 where
  pub send_timeout_ms : ℕ
  pub recv_timeout_ms : ℕ
  pub retry_count : ℕ
  pub retry_interval_ms : ℕ

-- an element of `connection_configs`
pub record ConfigSlot : Type 0 where
  pub fd : ℕ
  pub config : CommConfig
  pub in_use : Bool

-- `mc_tx_connection_lock_t`; `held` is the state of the mutex.
pub record TxLock : Type 0 where
  pub fd : ℕ
  pub in_use : Bool
  pub tx_mutex_initialized : Bool
  pub held : Bool

-- What a connection meets: the descriptor that `socket` returns, or none, and whether the peer answers.
pub record Dial : Type 0 where
  pub descriptor : Option ℕ
  pub answers : Bool

pub record World : Type 0 where
  pub mallocs : List Bool
  pub pthreads : List Bool
  pub sockopts : List Bool
  pub sends : List SendEvent
  pub recvs : List RecvEvent
  pub sent : List ℕ
  pub network_address : NetworkAddress
  pub tx_locks : List TxLock
  pub configs : List ConfigSlot
  pub thread_safe_initialized : Bool
  pub dials : List Dial
  pub opened : List ℕ

-- `byte_array_info`: NULL, or the bytes of the allocation, whose number is `length`. Where the code
-- leaves a length beside a NULL pointer, nothing reads that length.
abbrev pub Buffer : Type 0
Buffer = Option (List ℕ)

abbrev pub buffer_length : Buffer → ℕ
buffer_length none = 0
buffer_length (some bytes) = length bytes

-- `none` is undefined behaviour: a NULL pointer followed, or an access out of bounds.
abbrev pub M {ℓ} : Type ℓ → Type ℓ
M A = World → Option (A × World)

module _ {ℓ κ} {A : Type ℓ} {B : Type κ} where
  infixl 5 ◌>>=◌ ◌>>◌
  abbrev pub ◌>>=◌ : M A → (A → M B) → M B
  ◌>>=◌ m f w = elim (m w) [ none ↦ none | some (a, w') ↦ f a w' ]

  abbrev pub ◌>>◌ : M A → M B → M B
  m >> k = m >>= λ _. k

module _ {ℓ} {A : Type ℓ} where
  abbrev pub pure : A → M A
  pure a w = some (a, w)

  abbrev pub undefined : M A
  undefined w = none

  -- a value that is there unless it was read out of bounds
  abbrev pub checked : Option A → M A
  checked none w = none
  checked (some a) w = some (a, w)

abbrev next : List Bool → Bool
next [] = true
next (ok ∷ later) = ok

abbrev later : List Bool → List Bool
later [] = []
later (ok ∷ rest) = rest

-- Whether memory is to be had.
unfoldable pub malloc : M Bool
malloc w = some (next w.mallocs, record w { mallocs = later w.mallocs })

-- An allocation that is then filled with these bytes, or NULL.
unfoldable pub alloc : List ℕ → M Buffer
unfolding malloc
alloc bytes w = some (
  elim (next w.mallocs) [ true ↦ some bytes | false ↦ none ],
  record w { mallocs = later w.mallocs },
)

-- Whether a pthread function returned 0.
unfoldable pub pthread : M Bool
pthread w = some (next w.pthreads, record w { pthreads = later w.pthreads })

-- Whether `setsockopt` did not return an error.
unfoldable pub setsockopt : M Bool
setsockopt w = some (next w.sockopts, record w { sockopts = later w.sockopts })

-- The first action of a block has run.
pub >>=-eq_some {ℓ κ} :
    {A : Type ℓ} {B : Type κ} (m : M A) (f : A → M B) {w v : World} {a : A}
    → m w ≡ some (a, v)
    → (m >>= f) w ≡ f a v
>>=-eq_some m f {w} e = rw (e, ◌>>=◌)

pub >>=-eq_none {ℓ κ} :
    {A : Type ℓ} {B : Type κ} (m : M A) (f : A → M B) {w : World} → m w ≡ none → (m >>= f) w ≡ none
>>=-eq_none m f {w} e = rw (e, ◌>>=◌)

-- Memory is to be had while nothing says otherwise.
pub malloc-eq_some : (w : World) → w.mallocs ≡ [] → malloc w ≡ some (true, w)
unfolding malloc
malloc-eq_some w e =
    ap (λ (ms : List Bool). some (next ms, record w { mallocs = later ms })) e
    ∙ ap (λ (ms : List Bool). some (true, record w { mallocs = ms })) (sym e)

pub alloc-eq_some :
    (bytes : List ℕ) (w : World) → w.mallocs ≡ [] → alloc bytes w ≡ some (some bytes, w)
unfolding alloc
alloc-eq_some bytes w e =
    ap
      (λ (ms : List Bool).
        some (elim (next ms) [ true ↦ some bytes | false ↦ none ], record w { mallocs = later ms }))
      e
    ∙ ap (λ (ms : List Bool). some (some bytes, record w { mallocs = ms })) (sym e)

pub pthread-returns : (w : World) → w.pthreads ≡ [] → pthread w ≡ some (true, w)
unfolding pthread
pthread-returns w e =
    ap (λ (ps : List Bool). some (next ps, record w { pthreads = later ps })) e
    ∙ ap (λ (ps : List Bool). some (true, record w { pthreads = ps })) (sym e)

pub setsockopt-returns : (w : World) → w.sockopts ≡ [] → setsockopt w ≡ some (true, w)
unfolding setsockopt
setsockopt-returns w e =
    ap (λ (os : List Bool). some (next os, record w { sockopts = later os })) e
    ∙ ap (λ (os : List Bool). some (true, record w { sockopts = os })) (sym e)
