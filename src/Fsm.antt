-- ===== src/Fsm.antt =====
-- src/core/mdt_dialout_core.cc: the state machine of one call, which the four classes CiscoStream,
-- JuniperStream, NokiaStream and HuaweiStream have alike, over the handler of their messages.
pub mod Pool
pub mod Lifetime
pub mod Serve
pub mod Phases
use mdt_dialout_collector.Common.{
  ℕ, ◌+◌, Bool, false, ◌&&◌, Option, none, some, List, [], ◌∷◌, ltb, leb, if◌then◌else◌, Partial,
  done, thrown, int_overflow, bind,
}
use mdt_dialout_collector.Common.Number.{ℤ, pos, negsuc, int_max}

-- `enum class State`; the code never enters `closed`, its `Done`
pub data State : Type 0 where
  create read finishing closed : State

pub record Stream : Type 0 where
  pub state : State
  pub replies : ℕ

-- the constructor, which asks for a call
abbrev pub new_stream : Stream
new_stream = record { state = create; replies = 0 }

-- What the completion queue reports of a stream's operation: that it failed (`ok` is false), or
-- that it succeeded; a `Read` has then filled the request.
pub data Completion (M : Type 0) : Type 0 where
  failed : Completion M
  completed : M → Completion M

-- The operations that `Proceed` starts: a new stream, and one of its own.
pub data Op : Type 0 where
  spawn start_read start_finish : Op

-- `++replies_` on an `int`
abbrev pub increment : ℕ → Partial ℕ
increment n = if ltb n int_max then done (n + 1) else thrown int_overflow

-- `max_replies > 0 && replies >= max_replies`
abbrev pub reached : ℤ → ℕ → Bool
reached (pos n) replies = ltb 0 n && leb n replies
reached (negsuc _) replies = false

-- The stream after a turn (`none` where it deletes itself), what it started, and the rest of the
-- process.
abbrev pub Turn : Type 0 → Type 0
Turn W = Option Stream × List Op × W

module _ {M W : Type 0} (handle_message : M → W → Partial W) (max_replies : ℤ) where
  -- behind `++replies_`
  abbrev pub after_message : ℕ → W → Turn W
  after_message replies w =
      if reached max_replies replies
      then (some (record { state = finishing; replies = replies }), start_finish ∷ [], w)
      else (some (record { state = read; replies = replies }), start_read ∷ [], w)

  unfoldable pub proceed_in : State → ℕ → Completion M → W → Partial (Turn W)
  proceed_in create replies failed w = done (none, [], w)
  proceed_in create replies (completed _) w =
      done (some (record { state = read; replies = replies }), spawn ∷ start_read ∷ [], w)
  proceed_in read replies failed w =
      done (some (record { state = finishing; replies = replies }), start_finish ∷ [], w)
  proceed_in read replies (completed m) w =
      bind (handle_message m w)
        λ w'. bind (increment replies) λ replies'. done (after_message replies' w')
  proceed_in finishing replies _ w = done (none, [], w)
  proceed_in closed replies _ w = done (none, [], w)

  -- Proceed
  unfoldable pub proceed : Completion M → Stream → W → Partial (Turn W)
  unfolding proceed_in
  proceed c s w = proceed_in s.state s.replies c w
