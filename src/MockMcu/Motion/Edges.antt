-- ===== src/MockMcu/Motion/Edges.antt =====
-- mock_mcu/src/motion_executor.cpp: the edges of a segment, their order, and what they do to the
-- axes. A loop over the steps that are left recurses on their number. `std::sort` does not say in
-- which order it leaves edges of the same time, rank and axis; here they keep theirs. The position of
-- an axis has no bound. `enqueue` accepts a move only of an axis that is there, so `require_axis`
-- finds it: for another a move has no edges, and an edge no effect.
use remote_bsp.Prelude.{
  ℕ, zero, suc, ◌+◌, ◌-◌, ltb, leb, ◌==◌, not, Bool, true, false, Option, none, some, if◌then◌else◌,
  List, [], ◌∷◌, ◌++◌, length,
}
use remote_bsp.Prelude.Int.{ℤ, pos, negsuc}
use remote_bsp.MockMcu.Motion.{
  MotionEdge, MotionSignal, AxisRuntime, MoveRuntime, enable, direction, step, u64, u64_minus,
  find_axis,
}
use remote_bsp.MockMcu.Motion.Timing.{interpolate_offset}

unfoldable pub edge_order : MotionSignal → Bool → ℕ
edge_order step true = 3
edge_order step false = 0
edge_order enable level = 1
edge_order direction level = 2

unfoldable pub edge_less : MotionEdge → MotionEdge → Bool
unfolding edge_order
edge_less left right =
    let left_order = edge_order left.signal left.level in
    let right_order = edge_order right.signal right.level in
    if not (left.global_time_ns == right.global_time_ns)
    then ltb left.global_time_ns right.global_time_ns
    else (if not (left_order == right_order)
        then ltb left_order right_order
        else ltb left.axis_resource_id right.axis_resource_id)

unfoldable pub insert_edge : MotionEdge → List MotionEdge → List MotionEdge
unfolding edge_less
insert_edge e [] = e ∷ []
insert_edge e (f ∷ edges) =
    let rest = insert_edge e edges in if edge_less f e then f ∷ rest else e ∷ f ∷ edges

-- `std::sort(edges.begin(), edges.end(), edge_less)`
unfoldable pub sort_edges : List MotionEdge → List MotionEdge
unfolding insert_edge
sort_edges [] = []
sort_edges (e ∷ edges) = insert_edge e (sort_edges edges)

abbrev pub edge : ℕ → ℕ → MotionSignal → Bool → MotionEdge
edge time axis_resource_id signal level = record {
  global_time_ns = time;
  local_tick = time;
  axis_resource_id = axis_resource_id;
  signal = signal;
  level = level;
}

-- Whether a move goes up: `move.steps >= 0`.
abbrev pub is_positive : ℤ → Bool
is_positive (pos n) = true
is_positive (negsuc n) = false

abbrev pub same_level : Bool → Bool → Bool
same_level true b = b
same_level false b = not b

-- The time of the rising edge of step `index`.
unfoldable pub rise_time : ℕ → ℕ → ℕ → ℕ → ℕ
rise_time first_rise span step_count index =
    u64
      (first_rise + (if step_count == 1 then 0 else interpolate_offset span index (step_count - 1)))

unfoldable pub fall_time : ℕ → ℕ → ℕ → ℕ → ℕ → ℕ
unfolding rise_time
fall_time first_rise span step_count pulse_width index =
    u64 (rise_time first_rise span step_count index + pulse_width)

-- The times that a loop emits before it breaks: of the `left` steps from `index` on those whose
-- edge is due.
unfoldable pub due_times : (ℕ → ℕ) → ℕ → ℕ → ℕ → List ℕ
due_times time effective_until index zero = []
due_times time effective_until index (suc left) =
    let rest = due_times time effective_until (index + 1) left in
    if ltb effective_until (time index) then [] else time index ∷ rest

abbrev pub step_edges : ℕ → Bool → List ℕ → List MotionEdge
step_edges axis_resource_id level [] = []
step_edges axis_resource_id level (t ∷ times) =
    edge t axis_resource_id step level ∷ step_edges axis_resource_id level times

unfoldable pub control_edges : AxisRuntime → MoveRuntime → ℕ → ℕ → List MotionEdge
control_edges axis move start effective_until =
    let positive = is_positive move.move.steps in
    let enabling = if axis.enabled then [] else edge start move.move.resource_id enable true ∷ [] in
    let turning =
      if same_level axis.direction_positive positive
      then []
      else edge start move.move.resource_id direction positive ∷ [] in
    if move.controls_emitted
    then []
    else (if leb start effective_until then enabling ++ turning else [])

-- The body of the loop over the moves, for a move with steps: its edges up to a time, and the move
-- with what it has emitted.
unfoldable pub move_edges : AxisRuntime → ℕ → ℕ → ℕ → MoveRuntime → MoveRuntime × List MotionEdge
unfolding control_edges rise_time fall_time due_times
move_edges axis start end effective_until move =
    let first_rise = u64 (start + axis.config.direction_setup_ns) in
    let last_rise = u64_minus end axis.config.step_pulse_width_ns in
    let span = u64_minus last_rise first_rise in
    let rise = rise_time first_rise span move.step_count in
    let fall = fall_time first_rise span move.step_count axis.config.step_pulse_width_ns in
    let rises =
      due_times rise effective_until move.rises_emitted (move.step_count - move.rises_emitted) in
    let falls =
      due_times fall effective_until move.falls_emitted (move.step_count - move.falls_emitted) in
    (
      record move {
        rises_emitted = move.rises_emitted + length rises;
        falls_emitted = move.falls_emitted + length falls;
        controls_emitted = if leb start effective_until then true else move.controls_emitted;
      },
      control_edges axis move start effective_until
          ++ step_edges move.move.resource_id true rises
          ++ step_edges move.move.resource_id false falls,
    )

unfoldable pub collect_move :
    Option AxisRuntime → ℕ → ℕ → ℕ → MoveRuntime → MoveRuntime × List MotionEdge
unfolding move_edges
collect_move none start end effective_until move = (move, [])
collect_move (some axis) start end effective_until move =
    if move.step_count == 0 then (move, []) else move_edges axis start end effective_until move

unfoldable pub collect_moves :
    List AxisRuntime → ℕ → ℕ → ℕ → List MoveRuntime → List MoveRuntime × List MotionEdge
unfolding find_axis collect_move
collect_moves axes start end effective_until [] = ([], [])
collect_moves axes start end effective_until (move ∷ moves) =
    let (m, edges) =
      collect_move (find_axis move.move.resource_id axes) start end effective_until move in
    let (ms, later) = collect_moves axes start end effective_until moves in (m ∷ ms, edges ++ later)

abbrev pub step_position : Bool → ℤ → ℤ
step_position true (pos n) = pos (n + 1)
step_position true (negsuc zero) = pos 0
step_position true (negsuc (suc n)) = negsuc n
step_position false (pos zero) = negsuc 0
step_position false (pos (suc n)) = pos n
step_position false (negsuc n) = negsuc (n + 1)

-- One edge on the axis that it names.
unfoldable pub apply_edge : MotionEdge → AxisRuntime → AxisRuntime
apply_edge e a = elim e.signal [
  | enable ↦ record a { enabled = e.level }
  | direction ↦ record a { direction_positive = e.level }
  | step ↦
      if e.level
      then record a {
        step_level = true;
        position_steps = step_position a.direction_positive a.position_steps;
        emitted_steps = u64 (a.emitted_steps + 1);
      }
      else record a { step_level = false }
]

unfoldable pub apply_to_axes : MotionEdge → List AxisRuntime → List AxisRuntime
unfolding apply_edge
apply_to_axes e [] = []
apply_to_axes e (a ∷ axes) =
    (if a.config.resource_id == e.axis_resource_id then apply_edge e a else a)
    ∷ apply_to_axes e axes

unfoldable pub apply_edges : List MotionEdge → List AxisRuntime → List AxisRuntime
unfolding apply_to_axes
apply_edges [] axes = axes
apply_edges (e ∷ edges) axes = apply_edges edges (apply_to_axes e axes)

abbrev pub is_rise : MotionSignal → Bool → Bool
is_rise step level = level
is_rise enable level = false
is_rise direction level = false

-- How many of the edges are steps, which `metrics_.emitted_steps` counts.
unfoldable pub count_steps : List MotionEdge → ℕ
count_steps [] = 0
count_steps (e ∷ edges) = (if is_rise e.signal e.level then 1 else 0) + count_steps edges

-- The edges of `enter_safe_state`.
unfoldable pub safe_edges : ℕ → List AxisRuntime → List MotionEdge
safe_edges at_ns [] = []
safe_edges at_ns (a ∷ axes) =
    (if a.step_level then edge at_ns a.config.resource_id step false ∷ [] else [])
    ++ (if a.enabled then edge at_ns a.config.resource_id enable false ∷ [] else [])
    ++ safe_edges at_ns axes
