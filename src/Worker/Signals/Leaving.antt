-- ===== src/Worker/Signals/Leaving.antt =====
-- When `wait_done` of include/qs/scheduler.hpp ends.
use k23_search_engine.Prelude.{
  ℕ, zero, suc, ◌+◌, ◌*◌, ◌≤◌, ◌<◌, ◌≡◌, refl, sym, ap, ◌∙◌, arith, Bool, true, false, Bool-cases,
  inl, inr,
}
use k23_search_engine.ConcurrentQueue
use k23_search_engine.ConcurrentQueue.{ConcurrentQueue}
use k23_search_engine.Worker.{Worker, Runs}
use k23_search_engine.Worker.Order.{Reaches-IsOrdered, performed-eq-submitted}
use k23_search_engine.Worker.Progress.{Reaches-Runs}
use k23_search_engine.Worker.Signals.{
  Client, free, signalling, testing, waiting, Threads, is_waiting, is_in_wait, takes_item,
  Signalled, wakes_worker, wakes_client, wakes_none, Alerted, Moves, sleeps, wakes, works, submits,
  signals, closes, waits, leaves, blocks, rises, Comes, then_move, IsPrompted, Ends, has_left,
  goes_on,
}
use k23_search_engine.Worker.Signals.Awake.{must_wait, Alerted-worker, Comes-Reaches, Comes-IsAwake}
use k23_search_engine.Worker.Signals.Phase.{phase, Runs-phase}

abbrev client_rank : Client → ℕ
client_rank free = 0
client_rank signalling = 0
client_rank testing = 1
client_rank waiting = 0

abbrev awake_rank : Bool → ℕ
awake_rank true = 0
awake_rank false = 1

client_rank_most : (c : Client) → client_rank c ≤ 1
client_rank_most free = omega arith
client_rank_most signalling = omega arith
client_rank_most testing = omega arith
client_rank_most waiting = omega arith

module _ {J : Type 0} where
  abbrev rank : Threads J → ℕ
  rank t =
      2 * phase t.worker.place t.worker.queue.q.size + client_rank t.client + awake_rank t.asleep

  -- A signal of the worker leaves it awake and the client in its wait.
  Signalled-calm :
      (t t' : Threads J)
      → t.asleep ≡ false
      → is_in_wait t.client ≡ true
      → Signalled t t'
      → (t'.asleep ≡ false) × (is_in_wait t'.client ≡ true)
  Signalled-calm t t' awake inside (wakes_worker e) = (refl, inside)
  Signalled-calm t t' awake inside (wakes_client e) = (awake, refl)
  Signalled-calm t t' awake inside (wakes_none e f) = (awake, inside)

  Alerted-calm :
      (b : Bool) (t t' : Threads J)
      → t.asleep ≡ false
      → is_in_wait t.client ≡ true
      → Alerted b t t'
      → (t'.asleep ≡ false) × (is_in_wait t'.client ≡ true)
  Alerted-calm true t t' awake inside s = Signalled-calm t t' awake inside s
  Alerted-calm false t t' awake inside e =
      (ap (λ u. u.asleep) e ∙ awake, ap (λ u. is_in_wait u.client) e ∙ inside)

  alert : (b : Bool) (t : Threads J) → t.client ≡ waiting → (t' : Threads J) × Alerted b t t'
  alert true t place = (record t { client = testing }, wakes_client place)
  alert false t place = (t, refl)

  awake_while_held :
      (t : Threads J)
      → Comes t
      → t.client ≡ waiting
      → ConcurrentQueue.may_leave t.worker.queue ≡ false
      → t.asleep ≡ false
  unfolding ConcurrentQueue.may_leave
  awake_while_held t c place held = elim (Bool-cases t.asleep) [
    | inl e ↦
        let stuck =
          must_wait t.worker.queue
            ((Comes-IsAwake t c).asleep e (λ f. let x = sym place ∙ f in cc)) in
        let clash = sym held ∙ stuck in absurd cc
    | inr e ↦ e
  ]

  -- There is a prompted step.
  next_move :
      (t : Threads J) (c : Client)
      → t.client ≡ c
      → Comes t
      → ConcurrentQueue.is_closed t.worker.queue ≡ false
      → is_in_wait c ≡ true
      → (u : Threads J) × (m : Moves t u) × IsPrompted m
  next_move t free place come opened inside = absurd cc
  next_move t signalling place come opened inside = absurd cc
  next_move t testing place come opened inside =
      elim (Bool-cases (ConcurrentQueue.may_leave t.worker.queue)) [
        | inl e ↦ (_, leaves place e, tt)
        | inr e ↦ (_, blocks place e, tt)
      ]
  next_move t waiting place come opened inside =
      let held = (Comes-IsAwake t come).held (ap is_waiting place) in
      let (w', r) = Reaches-Runs t.worker (Comes-Reaches t come) opened held in
      let (u, s) = alert (takes_item t.worker) (record t { worker = w' }) place in
      (u, works (awake_while_held t come place held) r s, tt)

  works_less :
      (t t' : Threads J) (w' : Worker J) (b : Bool)
      → Comes t
      → ConcurrentQueue.is_closed t.worker.queue ≡ false
      → is_in_wait t.client ≡ true
      → t.asleep ≡ false
      → Runs t.worker w'
      → Alerted b (record t { worker = w' }) t'
      → (rank t' < rank t)
        × (ConcurrentQueue.is_closed t'.worker.queue ≡ false)
        × (is_in_wait t'.client ≡ true)
  works_less t t' w' b come opened inside awake r s =
      let o = Reaches-IsOrdered t.worker (Comes-Reaches t come) in
      let (less, still_open) = Runs-phase t.worker w' o opened r in
      let same = Alerted-worker b (record t { worker = w' }) t' s in
      let (awake', inside') = Alerted-calm b (record t { worker = w' }) t' awake inside s in
      let most = client_rank_most t'.client in
      let after = ap (λ w. phase w.place w.queue.q.size) same in
      let before_flag = ap awake_rank awake in
      let after_flag = ap awake_rank awake' in
      (
        omega (arith, less, most, after, before_flag, after_flag),
        ap (λ w. ConcurrentQueue.is_closed w.queue) same ∙ still_open,
        inside',
      )

  not_free :
      (t : Threads J) (c : Client)
      → t.client ≡ c
      → is_in_wait c ≡ false
      → is_in_wait t.client ≡ true
      → ⊥
  not_free t c place outside inside = let clash = sym inside ∙ ap is_in_wait place ∙ outside in cc

  -- What every step comes to, where it is so of the states with less to do.
  after_move :
      (t t' : Threads J)
      → ((u : Threads J)
          → rank u < rank t
          → Comes u
          → ConcurrentQueue.is_closed u.worker.queue ≡ false
          → is_in_wait u.client ≡ true
          → Ends u)
      → Comes t
      → ConcurrentQueue.is_closed t.worker.queue ≡ false
      → is_in_wait t.client ≡ true
      → (m : Moves t t') → IsPrompted m
      → Ends t'
  after_move t t' again come opened inside (sleeps awake place may) p =
      let flag = ap awake_rank awake in
      again _ (omega (arith, flag)) (then_move come (sleeps awake place may)) opened inside
  after_move t t' again come opened inside (wakes asleep) p = absurd p
  after_move t t' again come opened inside (works {w'} awake r s) p =
      let (less, opened', inside') =
        works_less t t' w' (takes_item t.worker) come opened inside awake r s in
      again t' less (then_move come (works awake r s)) opened' inside'
  after_move t t' again come opened inside (submits j queue' b place room run) p =
      absurd (not_free t free place refl inside)
  after_move t t' again come opened inside (signals place s) p =
      absurd (not_free t signalling place refl inside)
  after_move t t' again come opened inside (closes place s) p =
      absurd (not_free t free place refl inside)
  after_move t t' again come opened inside (waits place) p =
      absurd (not_free t free place refl inside)
  after_move t t' again come opened inside (leaves place empty) p =
      has_left refl (performed-eq-submitted t.worker (Comes-Reaches t come) empty)
  after_move t t' again come opened inside (blocks place full) p =
      let was = ap client_rank place in
      again _ (omega (arith, was)) (then_move come (blocks place full)) opened refl
  after_move t t' again come opened inside (rises place) p = absurd p

  waits_on :
      (n : ℕ) (t : Threads J)
      → rank t < n
      → Comes t
      → ConcurrentQueue.is_closed t.worker.queue ≡ false
      → is_in_wait t.client ≡ true
      → Ends t
  waits_on zero t lt come opened inside = absurd (omega arith)
  waits_on (suc n) t lt come opened inside =
      let (u, m, prompted) = next_move t t.client refl come opened inside in
      let again : (v : Threads J)
          → rank v < rank t
          → Comes v
          → ConcurrentQueue.is_closed v.worker.queue ≡ false
          → is_in_wait v.client ≡ true
          → Ends v =
        λ v less. waits_on n v (omega (arith, less, lt)) in
      goes_on m prompted (λ t' k p. after_move t t' again come opened inside k p)

  -- In every state that the worker and its one client thread come to, which submits at most 2 ^ 64 - 1
  -- jobs in all, where the client is in `wait_done` and the worker was not stopped: whichever thread goes
  -- next each time, and if no thread wakes without a signal, there is always a next step until the
  -- client leaves `wait_done`; it leaves after finitely many steps, and then all jobs that were enqueued
  -- have been performed, in order.
  pub Comes-Ends :
      (t : Threads J)
      → Comes t
      → ConcurrentQueue.is_closed t.worker.queue ≡ false
      → is_in_wait t.client ≡ true
      → Ends t
  Comes-Ends t come opened inside = waits_on (suc (rank t)) t (omega arith) come opened inside
