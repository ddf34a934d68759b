-- ===== src/Os/Handles/Histories.antt =====
-- src/os/mod.rs: histories of the calls of `OsQueue` that register handles, down to the interest
-- list of the system.
use gaea.Base.{
  not, ◌||◌, ℕ, ◌≡◌, refl, ap, ◌∙◌, ◌⊎◌, inl, inr, Bool, true, false, ◌&&◌, Option, none, some,
  List, [], ◌∷◌, map, if◌then◌else◌, Bool-cases,
}
use gaea.Base.Io.{Io}
use gaea.Os.Handles.{
  Handle, as_raw_fd, register, reregister, deregister, can_monitor, register_handles,
}
use gaea.Os.Evented.{debug_assert}
use gaea.Os.Interests.{interests_readable}
use gaea.Os.Options.{option_level}
use gaea.Os.Queue.{OsQueue}
use gaea.Sys.Epoll.Abi.{EpollFlags, EpEvent, EpollKernel}
use gaea.Sys.Epoll.Registry.{
  Watches, Registration, Registry, Call, registers, reregisters, deregisters, after, run_call,
  run_calls, Refines, run_calls-Refines,
}

pub data HandleCall : Type 0 where
  registers_handle reregisters_handle : Handle → Registration → HandleCall
  deregisters_handle : Handle → HandleCall

-- The call of the selector that it comes to, and whether its interests are accepted, which only
-- builds with debug assertions look at.
abbrev pub descriptor_call : HandleCall → Call
descriptor_call (registers_handle h r) = registers (as_raw_fd h) r
descriptor_call (reregisters_handle h r) = reregisters (as_raw_fd h) r
descriptor_call (deregisters_handle h) = deregisters (as_raw_fd h)

abbrev pub is_accepted : (debug_assertions : Bool) → HandleCall → Bool
is_accepted debug_assertions (registers_handle h r) =
    can_monitor h r.interests || not debug_assertions
is_accepted debug_assertions (reregisters_handle h r) =
    can_monitor h r.interests || not debug_assertions
is_accepted debug_assertions (deregisters_handle h) = true

abbrev pub all_accepted : (debug_assertions : Bool) → List HandleCall → Bool
all_accepted debug_assertions [] = true
all_accepted debug_assertions (c ∷ cs) =
    is_accepted debug_assertions c && all_accepted debug_assertions cs

debug_assert_cases :
    {A : Type 0} (test debug : Bool) (call : A)
    → debug_assert test debug call ≡ (if test || not debug then some call else none)
debug_assert_cases true debug call = refl
debug_assert_cases false true call = refl
debug_assert_cases false false call = refl

module _ (flags : EpollFlags) {W : Type 0} (kernel : EpollKernel W) (q : OsQueue) where
  -- `none` is a panic.
  unfoldable pub handle_call : HandleCall → Option (Io W (Unit {0}))
  unfolding register reregister deregister
  handle_call (registers_handle h r) = register flags kernel q h r.id r.interests r.opt
  handle_call (reregisters_handle h r) = reregister flags kernel q h r.id r.interests r.opt
  handle_call (deregisters_handle h) = some (deregister flags kernel q h)

  -- The rest of a history behind one call.
  abbrev made :
      HandleCall
      → Registry
      → W
      → (Registry → W → Option (Registry × W))
      → Option (Io W (Unit {0}))
      → Option (Registry × W)
  made c m w rest none = none
  made c m w rest (some call) = let (r, w') = call w in rest (after (descriptor_call c) r m) w'

  -- A history of calls, with the registry that their results make.
  unfoldable pub handle_calls : List HandleCall → Registry → W → Option (Registry × W)
  unfolding handle_call
  handle_calls [] m w = some (m, w)
  handle_calls (c ∷ cs) m w = made c m w (handle_calls cs) (handle_call c)

  handle_call-run_call :
      (c : HandleCall)
      → handle_call c ≡ (
          if is_accepted flags.debug_assertions c
          then some (run_call flags kernel q.selector (descriptor_call c))
          else none)
  unfolding handle_call run_call
  handle_call-run_call (registers_handle h r) =
      (register_handles flags kernel q h r.id r.interests r.opt).0 ∙ debug_assert_cases _ _ _
  handle_call-run_call (reregisters_handle h r) =
      (register_handles flags kernel q h r.id r.interests r.opt).1 ∙ debug_assert_cases _ _ _
  handle_call-run_call (deregisters_handle h) =
      ap some (register_handles flags kernel q h 0 interests_readable option_level).2

  -- A history ends with all its calls made, or, if one of them is not accepted, in a panic.
  handle_calls-run_calls :
      (cs : List HandleCall) (m : Registry) (w : W)
      → handle_calls cs m w ≡ (
          if all_accepted flags.debug_assertions cs
          then some (run_calls flags kernel q.selector (map descriptor_call cs) m w)
          else none)
  unfolding handle_calls run_calls
  handle_calls-run_calls [] m w = refl
  handle_calls-run_calls (c ∷ cs) m w =
      ap (made c m w (handle_calls cs)) (handle_call-run_call c)
      ∙ elim (Bool-cases (is_accepted flags.debug_assertions c)) [
        | inl accepted ↦ rw accepted (handle_calls-run_calls cs _ _)
        | inr refused ↦ rw refused refl
      ]

  module _ (watched : W → ℕ → ℕ → Option EpEvent) (watches : Watches kernel watched) where
    -- The interest list of the system is the registry.
    abbrev Listed : Registry → W → Type 0
    Listed = Refines flags kernel q.selector watched watches

    abbrev pub Ends : List HandleCall → Registry → W → Type 0
    Ends cs m w = (m' : Registry) × (w' : W) × (handle_calls cs m w ≡ some (m', w')) × Listed m' w'

    -- If `epoll_ctl` behaves as documented and the interest list of the system is the registry at
    -- first, then a history of calls that register, re-register and deregister handles of any kind
    -- has two ends. If the build has debug assertions and a call asks for interests that its handle
    -- can not be monitored for, it ends in a panic. Otherwise all calls are made, whichever of them
    -- fail, and the interest list is the registry that the successful calls make under the
    -- descriptors of the handles.
    pub handle_calls-Refines :
        (cs : List HandleCall) (m : Registry) (w : W)
        → Refines flags kernel q.selector watched watches m w
        → ((all_accepted flags.debug_assertions cs ≡ true) × Ends cs m w)
          ⊎ ((all_accepted flags.debug_assertions cs ≡ false) × (handle_calls cs m w ≡ none))
    handle_calls-Refines cs m w listed =
        let calls = map descriptor_call cs in
        elim (Bool-cases (all_accepted flags.debug_assertions cs)) [
          | inl accepted ↦ inl (
            accepted,
            (
              (run_calls flags kernel q.selector calls m w).0,
              (run_calls flags kernel q.selector calls m w).1,
              handle_calls-run_calls cs m w ∙ rw accepted refl,
              run_calls-Refines flags kernel q.selector watched watches calls m w listed,
            ),
          )
          | inr refused ↦ inr (refused, handle_calls-run_calls cs m w ∙ rw refused refl)
        ]
