-- ===== src/MockMcu/Motion/Executor/Safe.antt =====
-- mock_mcu/src/motion_executor.cpp: what a stop of the motion executor leaves of the axes and the queue.
use remote_bsp.Prelude.{
  ℕ, ◌≤◌, ◌≡◌, refl, sym, ap, subst, ◌∙◌, ◌==◌, ◌&&◌, ◌||◌, Bool, true, false, if◌then◌else◌, List,
  [], ◌∷◌, ◌++◌, All, Result, ok, arith,
}
use remote_bsp.MockMcu.Motion.{
  MotionEdge, MotionSignal, MotionFault, MotionExecutor, MotionError, AxisRuntime, enable,
  direction, step, has_fault, faulted,
}
use remote_bsp.MockMcu.Motion.Edges.{
  edge, insert_edge, sort_edges, apply_edge, apply_to_axes, apply_edges, safe_edges,
}
use remote_bsp.MockMcu.Motion.Executor.{
  emit_edges, safe_state, stop_safely, abort, advance_to, is_stop_reason, abort_with, run_queue,
}

abbrev IsLow : MotionEdge → Type 0
IsLow e = e.level ≡ false

abbrev IsStill : AxisRuntime → Type 0
IsStill a = (a.enabled ≡ false) × (a.step_level ≡ false)

abbrev is_enable : MotionSignal → Bool
is_enable enable = true
is_enable direction = false
is_enable step = false

abbrev is_step : MotionSignal → Bool
is_step step = true
is_step enable = false
is_step direction = false

unfoldable names : (MotionSignal → Bool) → ℕ → List MotionEdge → Bool
names p id [] = false
names p id (e ∷ edges) = ((e.axis_resource_id == id) && p e.signal) || names p id edges

-- What is high of an axis, the edges name.
abbrev Named : List MotionEdge → AxisRuntime → Type 0
Named edges a =
    (a.enabled ≡ true → names is_enable a.config.resource_id edges ≡ true)
    × (a.step_level ≡ true → names is_step a.config.resource_id edges ≡ true)

names-insert_edge :
    (p : MotionSignal → Bool) (id : ℕ) (e : MotionEdge) (edges : List MotionEdge)
    → names p id (insert_edge e edges) ≡ names p id (e ∷ edges)
unfolding names insert_edge
names-insert_edge p id e [] = refl
names-insert_edge p id e (f ∷ edges) = ground (arith, names-insert_edge p id e edges)

names-sort_edges :
    (p : MotionSignal → Bool) (id : ℕ) (edges : List MotionEdge)
    → names p id (sort_edges edges) ≡ names p id edges
unfolding names sort_edges
names-sort_edges p id [] = refl
names-sort_edges p id (e ∷ edges) =
    names-insert_edge p id e (sort_edges edges)
    ∙ ap (λ b. ((e.axis_resource_id == id) && p e.signal) || b) (names-sort_edges p id edges)

insert_edge-IsLow :
    (e : MotionEdge) (edges : List MotionEdge)
    → IsLow e
    → All IsLow edges
    → All IsLow (insert_edge e edges)
unfolding insert_edge
insert_edge-IsLow e [] he h = (he, tt)
insert_edge-IsLow e (f ∷ edges) he h = ground (arith, insert_edge-IsLow e edges he h.1)

sort_edges-IsLow : (edges : List MotionEdge) → All IsLow edges → All IsLow (sort_edges edges)
unfolding sort_edges
sort_edges-IsLow [] h = tt
sort_edges-IsLow (e ∷ edges) h =
    insert_edge-IsLow e (sort_edges edges) h.0 (sort_edges-IsLow edges h.1)

names-append :
    (p : MotionSignal → Bool) (id : ℕ) (front edges : List MotionEdge)
    → names p id edges ≡ true
    → names p id (front ++ edges) ≡ true
unfolding names
names-append p id [] edges h = h
names-append p id (e ∷ front) edges h = ground (arith, names-append p id front edges h)

safe_edges-IsLow : (at_ns : ℕ) (axes : List AxisRuntime) → All IsLow (safe_edges at_ns axes)
unfolding safe_edges
safe_edges-IsLow at_ns [] = tt
safe_edges-IsLow at_ns (a ∷ axes) = ground (arith, safe_edges-IsLow at_ns axes)

Named-append :
    (front edges : List MotionEdge) (axes : List AxisRuntime)
    → All (Named edges) axes
    → All (Named (front ++ edges)) axes
Named-append front edges [] h = tt
Named-append front edges (a ∷ axes) h = (
  (
    λ e. names-append is_enable a.config.resource_id front edges (h.0.0 e),
    λ e. names-append is_step a.config.resource_id front edges (h.0.1 e),
  ),
  Named-append front edges axes h.1,
)

safe_edges-Named : (at_ns : ℕ) (axes : List AxisRuntime) → All (Named (safe_edges at_ns axes)) axes
unfolding safe_edges names
safe_edges-Named at_ns [] = tt
safe_edges-Named at_ns (a ∷ axes) = (
  ground arith,
  Named-append
      ((if a.step_level then edge at_ns a.config.resource_id step false ∷ [] else [])
        ++ (if a.enabled then edge at_ns a.config.resource_id enable false ∷ [] else []))
      (safe_edges at_ns axes) axes (safe_edges-Named at_ns axes),
)

apply_edge-Named :
    (e : MotionEdge) (edges : List MotionEdge) (a : AxisRuntime)
    → IsLow e
    → Named (e ∷ edges) a
    → Named edges (if a.config.resource_id == e.axis_resource_id then apply_edge e a else a)
unfolding names apply_edge
apply_edge-Named e edges a low h = ground arith

apply_to_axes-Named :
    (e : MotionEdge) (edges : List MotionEdge) (axes : List AxisRuntime)
    → IsLow e
    → All (Named (e ∷ edges)) axes
    → All (Named edges) (apply_to_axes e axes)
unfolding apply_to_axes
apply_to_axes-Named e edges [] low h = tt
apply_to_axes-Named e edges (a ∷ axes) low h =
    (apply_edge-Named e edges a low h.0, apply_to_axes-Named e edges axes low h.1)

none-Named : (axes : List AxisRuntime) → All (Named []) axes → All IsStill axes
unfolding names
none-Named [] h = tt
none-Named (a ∷ axes) h = (ground (arith, h.0), none-Named axes h.1)

apply_edges-IsStill :
    (edges : List MotionEdge) (axes : List AxisRuntime)
    → All IsLow edges
    → All (Named edges) axes
    → All IsStill (apply_edges edges axes)
unfolding apply_edges
apply_edges-IsStill [] axes low h = none-Named axes h
apply_edges-IsStill (e ∷ edges) axes low h =
    apply_edges-IsStill edges (apply_to_axes e axes) low.1
      (apply_to_axes-Named e edges axes low.0 h)

sort_edges-Named :
    (edges : List MotionEdge) (axes : List AxisRuntime)
    → All (Named edges) axes
    → All (Named (sort_edges edges)) axes
sort_edges-Named edges [] h = tt
sort_edges-Named edges (a ∷ axes) h = (
  (
    λ e. names-sort_edges is_enable a.config.resource_id edges ∙ h.0.0 e,
    λ e. names-sort_edges is_step a.config.resource_id edges ∙ h.0.1 e,
  ),
  sort_edges-Named edges axes h.1,
)

-- No axis is enabled or has its step line high, and no segment waits.
pub record IsSafe (m : MotionExecutor) : Type 0 where
  pub axes : All IsStill m.axes
  pub queue : m.queue ≡ []

pub stop_safely-IsSafe :
    (at_ns : ℕ) (fault : MotionFault) (m : MotionExecutor) → IsSafe (stop_safely at_ns fault m).0
unfolding stop_safely emit_edges
stop_safely-IsSafe at_ns fault m = record {
  axes =
      subst
        (λ (axes : List AxisRuntime).
          All IsStill (apply_edges (sort_edges (safe_edges at_ns m.axes)) axes))
        (same_axes fault)
        (apply_edges-IsStill (sort_edges (safe_edges at_ns m.axes)) m.axes
          (sort_edges-IsLow (safe_edges at_ns m.axes) (safe_edges-IsLow at_ns m.axes))
          (sort_edges-Named (safe_edges at_ns m.axes) m.axes (safe_edges-Named at_ns m.axes)));
  queue = no_queue fault;
}
  where
    same_axes : (f : MotionFault) → m.axes ≡ (safe_state at_ns f m).axes
    same_axes f = ground (arith, safe_state)

    no_queue : (f : MotionFault) → (safe_state at_ns f m).queue ≡ []
    no_queue f = ground (arith, safe_state)

stop_safely_fault :
    (at_ns : ℕ) (fault : MotionFault) (m : MotionExecutor)
    → has_fault fault ≡ true
    → ((stop_safely at_ns fault m).0.fault ≡ fault)
      × ((stop_safely at_ns fault m).0.state ≡ faulted)
unfolding stop_safely emit_edges safe_state
stop_safely_fault at_ns fault m h = ground (arith, h)

advance_to_ok :
    (m : MotionExecutor) (now_ns : ℕ)
    → m.now_ns ≤ now_ns
    → (edges : List MotionEdge) × ((advance_to m now_ns).0 ≡ ok edges)
unfolding advance_to
advance_to_ok m now_ns h = (sort_edges (run_queue now_ns m.queue m).1, ground arith)

abort_with_ok :
    (m : MotionExecutor) (fault : MotionFault)
    (advanced : Result MotionError (List MotionEdge) × MotionExecutor)
    (stop : MotionExecutor × List MotionEdge) (edges : List MotionEdge)
    → advanced.0 ≡ ok edges
    → is_stop_reason fault ≡ true
    → has_fault m.fault ≡ false
    → abort_with m fault advanced stop ≡ (ok (sort_edges (edges ++ stop.1)), stop.0)
unfolding abort_with
abort_with_ok m fault (advancing, n) (stopped, safe) edges h reason unlatched = ground (arith, h)

-- An abort for a reason of its own, of an executor that has no fault, at a time that is not past,
-- succeeds. Behind it no axis is enabled and no step line is high, no segment waits, and the reason
-- is latched as the fault.
pub abort-IsSafe :
    (m : MotionExecutor) (now_ns : ℕ) (fault : MotionFault)
    → m.now_ns ≤ now_ns
    → is_stop_reason fault ≡ true
    → has_fault m.fault ≡ false
    → ((output : List MotionEdge) × ((abort m now_ns fault).0 ≡ ok output))
      × IsSafe (abort m now_ns fault).1
      × ((abort m now_ns fault).1.fault ≡ fault)
      × ((abort m now_ns fault).1.state ≡ faulted)
unfolding abort
abort-IsSafe m now_ns fault late reason unlatched =
    let advanced : Result MotionError (List MotionEdge) × MotionExecutor = advance_to m now_ns in
    let stop : MotionExecutor × List MotionEdge = stop_safely now_ns fault advanced.1 in
    let (edges, advancing) = advance_to_ok m now_ns late in
    let (latched, state) =
      stop_safely_fault now_ns fault advanced.1 (is_stop_reason_fault fault reason) in
    subst
      (λ (n : Result MotionError (List MotionEdge) × MotionExecutor).
        ((output : List MotionEdge) × (n.0 ≡ ok output))
        × IsSafe n.1
        × (n.1.fault ≡ fault)
        × (n.1.state ≡ faulted))
      (sym (abort_with_ok m fault advanced stop edges advancing reason unlatched))
      (
        (sort_edges (edges ++ stop.1), refl),
        stop_safely-IsSafe now_ns fault advanced.1,
        latched,
        state,
      )
  where
    is_stop_reason_fault : (f : MotionFault) → is_stop_reason f ≡ true → has_fault f ≡ true
    is_stop_reason_fault f h = ground (arith, h)
