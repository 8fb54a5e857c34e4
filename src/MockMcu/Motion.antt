-- ===== src/MockMcu/Motion.antt =====
-- mock_mcu/include/remotebsp/mock_mcu/motion_executor.hpp: the data of the motion executor, whose
-- operations stand in the children. A time is a number of nanoseconds of 64 bits. `axis_indices_`,
-- which only leads from a resource id to the axis of that id, is a search in the list of axes.
pub mod Timing
pub mod Edges
pub mod Enqueue
pub mod Executor
mod Examples
use remote_bsp.Prelude.{
  ℕ, zero, suc, ◌+◌, ◌-◌, ◌%◌, ◌^◌, ◌==◌, Bool, true, false, if◌then◌else◌, Option, none, some,
  List, [], ◌∷◌,
}
use remote_bsp.Prelude.Int.{ℤ, pos, negsuc}

pub record MotionAxisConfig : Type 0 where
  pub resource_id : ℕ
  pub maximum_step_rate_hz : ℕ
  pub step_pulse_width_ns : ℕ
  pub minimum_step_low_ns : ℕ
  pub direction_setup_ns : ℕ

pub record MotionAxisMove : Type 0 where
  pub resource_id : ℕ
  pub steps : ℤ

pub record MotionSegment : Type 0 where
  pub sequence : ℕ
  pub start_time_ns : ℕ
  pub duration_ns : ℕ
  pub final_segment : Bool
  pub axes : List MotionAxisMove

pub data MotionSignal : Type 0 where
  enable direction step : MotionSignal

pub record MotionEdge : Type 0 where
  pub global_time_ns : ℕ
  pub local_tick : ℕ
  pub axis_resource_id : ℕ
  pub signal : MotionSignal
  pub level : Bool

pub data MotionState : Type 0 where
  idle armed running faulted : MotionState

pub data MotionFault : Type 0 where
  no_fault aborted limit_triggered queue_underrun : MotionFault

pub record MotionAxisStatus : Type 0 where
  pub resource_id : ℕ
  pub enabled : Bool
  pub direction_positive : Bool
  pub step_level : Bool
  pub position_steps : ℤ
  pub emitted_steps : ℕ

pub record MotionMetrics : Type 0 where
  pub accepted_segments : ℕ
  pub rejected_segments : ℕ
  pub completed_segments : ℕ
  pub emitted_edges : ℕ
  pub emitted_steps : ℕ
  pub safety_stops : ℕ
  pub limit_stops : ℕ
  pub queue_underruns : ℕ
  pub maximum_queue_depth : ℕ

pub record MotionStatus : Type 0 where
  pub state : MotionState
  pub fault : MotionFault
  pub node_time_ns : ℕ
  pub queue_depth : ℕ
  pub queue_capacity : ℕ
  pub last_accepted_sequence : ℕ
  pub last_completed_sequence : ℕ
  pub axes : List MotionAxisStatus
  pub metrics : MotionMetrics

pub data MotionError : Type 0 where
  invalid_configuration invalid_segment invalid_axis duplicate_axis sequence_mismatch : MotionError
  segment_late segment_overlap queue_full rate_exceeded fault_latched : MotionError
  time_went_backwards : MotionError

pub record AxisRuntime : Type 0 where
  pub config : MotionAxisConfig
  pub enabled : Bool
  pub direction_positive : Bool
  pub step_level : Bool
  pub position_steps : ℤ
  pub emitted_steps : ℕ

pub record MoveRuntime : Type 0 where
  pub move : MotionAxisMove
  pub step_count : ℕ
  pub rises_emitted : ℕ
  pub falls_emitted : ℕ
  pub controls_emitted : Bool

pub record SegmentRuntime : Type 0 where
  pub segment : MotionSegment
  pub moves : List MoveRuntime

pub record MotionExecutor : Type 0 where
  pub axis_configs : List MotionAxisConfig
  pub axes : List AxisRuntime
  pub queue : List SegmentRuntime
  pub queue_capacity : ℕ
  pub minimum_lead_time_ns : ℕ
  pub now_ns : ℕ
  pub next_available_time_ns : ℕ
  pub last_accepted_sequence : ℕ
  pub last_completed_sequence : ℕ
  pub state : MotionState
  pub fault : MotionFault
  pub metrics : MotionMetrics

abbrev pub uint64_max : ℕ
uint64_max = 0xFFFFFFFFFFFFFFFF

abbrev pub u64 : ℕ → ℕ
u64 n = n % 2 ^ 64

-- `a - b` on 64 bits
abbrev pub u64_minus : ℕ → ℕ → ℕ
u64_minus a b = (a + 2 ^ 64 - b) % 2 ^ 64

abbrev pub is_faulted : MotionState → Bool
is_faulted faulted = true
is_faulted idle = false
is_faulted armed = false
is_faulted running = false

abbrev pub has_fault : MotionFault → Bool
has_fault no_fault = false
has_fault aborted = true
has_fault limit_triggered = true
has_fault queue_underrun = true

-- `axes_[axis_indices_.at(resource_id)]`
unfoldable pub find_axis : ℕ → List AxisRuntime → Option AxisRuntime
find_axis resource_id [] = none
find_axis resource_id (a ∷ axes) =
    let rest = find_axis resource_id axes in
    if a.config.resource_id == resource_id then some a else rest
