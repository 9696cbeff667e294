-- ===== src/Socket/Send.antt =====
-- What `mc_write_msg` and `mc_try_send_msg` put on the connection.
use mathlib.Core.Path.{ap₂}
use melsec_mc_net.Prelude.{
  ℕ, zero, suc, ◌+◌, ◌≤◌, ◌<◌, ◌≡◌, refl, sym, ap, ◌∙◌, Bool, true, false, List, [], ◌∷◌, ◌++◌,
  append_assoc, append-nil, arith, length, take, drop, length-drop, leb, if◌then◌else◌, some, none,
  All, Option, take-all,
}
use native.Mathlib.Decide.{dec_le}
use melsec_mc_net.Machine.{World, >>=-eq_some, SendEvent, accept, send_interrupted, send_failed}
use melsec_mc_net.Socket.{
  is_positive, is_negative, write_loop, mc_write_msg, try_loop, mc_try_send_msg,
}

-- How many bytes the system takes before it refuses.
abbrev pub capacity : List SendEvent → ℕ
capacity [] = 0
capacity (accept k ∷ events) = suc k + capacity events
capacity (send_interrupted ∷ events) = capacity events
capacity (send_failed ∷ events) = 0

take-nil : (n : ℕ) → take {A = ℕ} n [] ≡ []
take-nil zero = refl
take-nil (suc n) = refl

take-take-drop : (k n : ℕ) (xs : List ℕ) → take (k + n) xs ≡ take k xs ++ take n (drop k xs)
take-take-drop zero n xs = ap (λ (t : ℕ). take t xs) (omega arith)
take-take-drop (suc k) n [] = simp (take-nil, take-nil)
take-take-drop (suc k) n (x ∷ xs) =
    let e : suc k + n ≡ suc (k + n) = omega arith in
    rw e (ap (λ (t : List ℕ). x ∷ t) (take-take-drop k n xs))

-- All of the bytes are sent if the system takes as many, and else as many as it takes.
pub write_loop_lem :
    (bytes : List ℕ) (events : List SendEvent) (sent : List ℕ)
    → ((write_loop bytes events sent).0 ≡ leb (length bytes) (capacity events))
      × ((write_loop bytes events sent).2 ≡ sent ++ take (capacity events) bytes)
unfolding write_loop
write_loop_lem [] events sent = (ground arith, rw (take-nil, append-nil))
write_loop_lem (b ∷ bs) [] sent = (ground arith, sym (append-nil sent))
write_loop_lem (b ∷ bs) (send_interrupted ∷ events) sent = write_loop_lem (b ∷ bs) events sent
write_loop_lem (b ∷ bs) (send_failed ∷ events) sent = (ground arith, sym (append-nil sent))
write_loop_lem (b ∷ bs) (accept k ∷ events) sent =
    let r = write_loop_lem (drop k bs) events (sent ++ b ∷ take k bs) in
    let e : suc k + capacity events ≡ suc (k + capacity events) = omega arith in
    (
      ground (arith, r.0, length-drop k bs),
      r.1
          ∙ append_assoc sent (b ∷ take k bs) (take (capacity events) (drop k bs))
          ∙ rw e (ap (λ (t : List ℕ). sent ++ b ∷ t) (sym (take-take-drop k (capacity events) bs))),
    )

pub not_negative : (fd : ℕ) → is_positive fd ≡ true → is_negative fd ≡ false
not_negative fd h = ground arith

-- The beginnings of a command that were sent before a send failed.
abbrev pub pieces : List ℕ → List ℕ → List ℕ
pieces [] cmd = []
pieces (k ∷ cuts) cmd = take k cmd ++ pieces cuts cmd

-- What a number of tries at a command has done. Each that failed has left less than the command on
-- the connection, and the one that succeeded, the last, all of it.
pub record Tried (cmd : List ℕ) (tries : ℕ) (w : World) (result : Option (Bool × World))
    : Type 0 where
  pub ok : Bool
  pub later : List SendEvent
  pub cuts : List ℕ
  pub returns :
      result
      ≡ some (
        ok,
        record w { sends = later; sent = w.sent ++ pieces cuts cmd ++ (if ok then cmd else []) },
      )
  pub shorter : All (λ k. k < length cmd) cuts
  pub on_success : ok ≡ true → length cuts < tries
  pub on_failure : ok ≡ false → length cuts ≡ tries
  pub at_once : length cmd ≤ capacity w.sends → 0 < tries → (ok ≡ true) × (cuts ≡ [])

module _ (fd : ℕ) (positive : is_positive fd ≡ true) (cmd : List ℕ)
    (some_bytes : 0 < length cmd) where
  mc_write_msg_all :
      (w : World)
      → length cmd ≤ capacity w.sends
      → (later : List SendEvent) × (mc_write_msg fd (some cmd) w
          ≡ some (some (length cmd), record w { sends = later; sent = w.sent ++ cmd }))
  unfolding mc_write_msg
  mc_write_msg_all w h =
      let r = write_loop_lem cmd w.sends w.sent in
      ((write_loop cmd w.sends w.sent).1, ground (arith, r.0, r.1, take-all (capacity w.sends) cmd))

  mc_write_msg_cut :
      (w : World)
      → capacity w.sends < length cmd
      → (later : List SendEvent) × (mc_write_msg fd (some cmd) w
          ≡ some (none, record w { sends = later; sent = w.sent ++ take (capacity w.sends) cmd }))
  unfolding mc_write_msg
  mc_write_msg_cut w h =
      let r = write_loop_lem cmd w.sends w.sent in
      ((write_loop cmd w.sends w.sent).1, ground (arith, r.0, r.1))

  pub try_loop-Tried : (tries : ℕ) (w : World) → Tried cmd tries w (try_loop tries fd (some cmd) w)
  unfolding try_loop
  try_loop-Tried zero w = record {
    ok = false;
    later = w.sends;
    cuts = [];
    returns = simp append-nil;
    shorter = tt;
    on_success = λ e. cc;
    on_failure = λ e. refl;
    at_once = λ h z. absurd (omega arith);
  }
  try_loop-Tried (suc tries) w = elim (dec_le (length cmd) (capacity w.sends)) [
    | yes h ↦
        let (later, sent) = mc_write_msg_all w h in
        record {
          ok = true;
          later = later;
          cuts = [];
          returns =
              >>=-eq_some (mc_write_msg fd (some cmd)) _ sent ∙ ground (arith, append-nil w.sent);
          shorter = tt;
          on_success = λ e. omega arith;
          on_failure = λ e. cc;
          at_once = λ h z. (refl, refl);
        }
    | no h ↦
        let (later, sent) = mc_write_msg_cut w (omega arith) in
        let rest =
          try_loop-Tried tries
            (record w { sends = later; sent = w.sent ++ take (capacity w.sends) cmd }) in
        record {
          ok = rest.ok;
          later = rest.later;
          cuts = capacity w.sends ∷ rest.cuts;
          returns =
              >>=-eq_some (mc_write_msg fd (some cmd)) _ sent
              ∙ (rest.returns
                  ∙ ap (λ (t : List ℕ). some (rest.ok, record w { sends = rest.later; sent = t }))
                      (ap (λ (t : List ℕ). t ++ (if rest.ok then cmd else []))
                        (append_assoc w.sent (take (capacity w.sends) cmd)
                          (pieces rest.cuts cmd))));
          shorter = (omega arith, rest.shorter);
          on_success = λ e. ground (arith, rest.on_success e);
          on_failure = λ e. ap suc (rest.on_failure e);
          at_once = λ fits z. absurd (h fits);
        }
  ]

-- `mc_try_send_msg` on a positive descriptor and a command of at least one byte: it ends; if its result is
-- true, then at most two failed tries, each of which left less than the command on the connection,
-- are followed by the whole command; if it is false, three tries failed, and each left less than the
-- command. Nothing but the send events and what was sent changes.
pub mc_try_send_msg-Tried :
    (fd : ℕ) (cmd : List ℕ) (w : World)
    → is_positive fd ≡ true
    → 0 < length cmd
    → Tried cmd 3 w (mc_try_send_msg fd (some cmd) w)
unfolding mc_try_send_msg
mc_try_send_msg-Tried fd cmd w positive some_bytes =
    rw (not_negative fd positive, if◌then◌else◌) (try_loop-Tried fd positive cmd some_bytes 3 w)

-- A command of at least one byte that the system takes at once, on a positive descriptor, is sent
-- exactly once by `mc_try_send_msg`, whatever interrupts it, and the result is true.
pub mc_try_send_msg-at_once :
    (fd : ℕ) (cmd : List ℕ) (w : World)
    → is_positive fd ≡ true
    → 0 < length cmd
    → length cmd ≤ capacity w.sends
    → (later : List SendEvent) × (mc_try_send_msg fd (some cmd) w
        ≡ some (true, record w { sends = later; sent = w.sent ++ cmd }))
mc_try_send_msg-at_once fd cmd w positive some_bytes fits =
    let t = mc_try_send_msg-Tried fd cmd w positive some_bytes in
    let (ok, none_cut) = t.at_once fits (omega arith) in
    (
      t.later,
      t.returns
          ∙ ap₂
              (λ (b : Bool) (cs : List ℕ). some (
                b,
                record w {
                  sends = t.later;
                  sent = w.sent ++ pieces cs cmd ++ (if b then cmd else []);
                },
              ))
              ok none_cut
          ∙ ap (λ (s : List ℕ). some (true, record w { sends = t.later; sent = s ++ cmd }))
              (append-nil w.sent),
    )
