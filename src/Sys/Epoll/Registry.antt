-- ===== src/Sys/Epoll/Registry.antt =====
-- src/sys/unix/epoll.rs: histories of calls of `register`, `reregister` and `deregister` on one
-- selector, and the map from descriptors to registrations that they stand for.
use mathlib.Core.Option
use gaea.Base.{
  ℕ, ◌≡◌, refl, ap, ◌∙◌, ◌≢◌, Option, none, some, List, [], ◌∷◌, arith, ◌==◌, if◌then◌else◌, ok,
  err, IoError, IoResult,
}
use gaea.Base.Io.{Io}
use gaea.Event.{EventId}
use gaea.Os.Interests.{Interests}
use gaea.Os.Options.{RegisterOption}
use gaea.Sys.Epoll.Abi.{EpollFlags, EpEvent, EpollKernel, CtlOp, ctl_add, ctl_mod, ctl_del}
use gaea.Sys.Epoll.{Selector, new_epoll_event, epoll_ctl, register, reregister, deregister}

-- What `epoll_ctl` is documented to do, in terms of the interest list that an instance keeps: an
-- addition is for a descriptor that is not in the list, the other operations for one that is, and a
-- call that fails changes nothing.
pub record Watches {W : Type 0} (kernel : EpollKernel W) (watched : W → ℕ → ℕ → Option EpEvent)
    : Type 0 where
  pub added :
      (p fd : ℕ) (ev : EpEvent) (w w' : W)
      → kernel.epoll_ctl p ctl_add fd (some ev) w ≡ (ok tt, w')
      → (watched w p fd ≡ none)
        × ((k : ℕ) → watched w' p k ≡ (if fd == k then some ev else watched w p k))
  pub modified :
      (p fd : ℕ) (ev : EpEvent) (w w' : W)
      → kernel.epoll_ctl p ctl_mod fd (some ev) w ≡ (ok tt, w')
      → (watched w p fd ≢ none)
        × ((k : ℕ) → watched w' p k ≡ (if fd == k then some ev else watched w p k))
  pub deleted :
      (p fd : ℕ) (w w' : W)
      → kernel.epoll_ctl p ctl_del fd none w ≡ (ok tt, w')
      → (watched w p fd ≢ none)
        × ((k : ℕ) → watched w' p k ≡ (if fd == k then none else watched w p k))
  pub refused :
      (p fd : ℕ) (op : CtlOp) (ev : Option EpEvent) (w w' : W) (e : IoError)
      → kernel.epoll_ctl p op fd ev w ≡ (err e, w')
      → (k : ℕ) → watched w' p k ≡ watched w p k

pub record Registration : Type 0 where
  pub id : EventId
  pub interests : Interests
  pub opt : RegisterOption

pub data Call : Type 0 where
  registers reregisters : ℕ → Registration → Call
  deregisters : ℕ → Call

-- The registrations by descriptor, and what a call that succeeds makes of them.
abbrev pub Registry : Type 0
Registry = ℕ → Option Registration

abbrev pub update : Registry → ℕ → Option Registration → Registry
update m fd v k = if fd == k then v else m k

abbrev pub apply : Call → Registry → Registry
apply (registers fd r) m = update m fd (some r)
apply (reregisters fd r) m = update m fd (some r)
apply (deregisters fd) m = update m fd none

-- A registration is for a descriptor with none, the other calls for one that has it.
abbrev pub Allowed : Call → Registry → Type 0
Allowed (registers fd r) m = m fd ≡ none
Allowed (reregisters fd r) m = m fd ≢ none
Allowed (deregisters fd) m = m fd ≢ none

abbrev pub after : Call → IoResult (Unit {0}) → Registry → Registry
after c (ok _) m = apply c m
after c (err e) m = m

module _ (flags : EpollFlags) {W : Type 0} (kernel : EpollKernel W) (self : Selector) where
  unfoldable pub run_call : Call → Io W (Unit {0})
  run_call (registers fd r) = register flags kernel self fd r.id r.interests r.opt
  run_call (reregisters fd r) = reregister flags kernel self fd r.id r.interests r.opt
  run_call (deregisters fd) = deregister flags kernel self fd

  -- A history of calls, with the registry that their results make.
  unfoldable pub run_calls : List Call → Registry → W → Registry × W
  run_calls [] m w = (m, w)
  run_calls (c ∷ cs) m w = let (r, w') = run_call c w in run_calls cs (after c r m) w'

  abbrev pub request : Registration → EpEvent
  request r = new_epoll_event flags r.interests r.opt r.id

  module _ (watched : W → ℕ → ℕ → Option EpEvent) (watches : Watches kernel watched) where
    -- The interest list of the system is the registry.
    abbrev pub Refines : Registry → W → Type 0
    Refines m w = (fd : ℕ) → watched w self.epfd fd ≡ Option.map request (m fd)

    -- A call that succeeds was allowed, and a call makes of the interest list what its result makes
    -- of the registry.
    step_Refines :
        (c : Call) (m : Registry) (w w' : W) (r : IoResult (Unit {0}))
        → run_call c w ≡ (r, w')
        → Refines m w
        → Refines (after c r m) w'
    unfolding run_call register reregister deregister epoll_ctl
    step_Refines (registers fd r) m w w' (ok _) call refines k =
        (watches.added self.epfd fd (request r) w w' call).1 k ∙ ground (arith, refines k)
    step_Refines (reregisters fd r) m w w' (ok _) call refines k =
        (watches.modified self.epfd fd (request r) w w' call).1 k ∙ ground (arith, refines k)
    step_Refines (deregisters fd) m w w' (ok _) call refines k =
        (watches.deleted self.epfd fd w w' call).1 k ∙ ground (arith, refines k)
    step_Refines (registers fd r) m w w' (err e) call refines k =
        watches.refused self.epfd fd ctl_add (some (request r)) w w' e call k ∙ refines k
    step_Refines (reregisters fd r) m w w' (err e) call refines k =
        watches.refused self.epfd fd ctl_mod (some (request r)) w w' e call k ∙ refines k
    step_Refines (deregisters fd) m w w' (err e) call refines k =
        watches.refused self.epfd fd ctl_del none w w' e call k ∙ refines k

    -- If `epoll_ctl` behaves as documented, then while the interest list of the system is the
    -- registry, a call that succeeds is one that the registry allows: no descriptor is registered
    -- twice, and none is changed or removed that is not registered.
    pub run_call-Allowed :
        (c : Call) (m : Registry) (w w' : W)
        → Refines m w
        → run_call c w ≡ (ok tt, w')
        → Allowed c m
    unfolding run_call register reregister deregister epoll_ctl
    run_call-Allowed (registers fd r) m w w' refines call =
        ground (arith, refines fd, (watches.added self.epfd fd (request r) w w' call).0)
    run_call-Allowed (reregisters fd r) m w w' refines call = λ e.
        (watches.modified self.epfd fd (request r) w w' call).0
          (refines fd ∙ ap (Option.map request) e)
    run_call-Allowed (deregisters fd) m w w' refines call =
        λ e. (watches.deleted self.epfd fd w w' call).0 (refines fd ∙ ap (Option.map request) e)

    -- If `epoll_ctl` behaves as documented and the interest list of the system is the registry at
    -- first, then after any history of calls, whichever of them fail, the interest list is the
    -- registry that the successful calls make: for each descriptor the identifier, the interests
    -- and the option of the last registration, which overrides those before it.
    pub run_calls-Refines :
        (cs : List Call) (m : Registry) (w : W)
        → Refines m w
        → Refines (run_calls cs m w).0 (run_calls cs m w).1
    unfolding run_calls
    run_calls-Refines [] m w refines = refines
    run_calls-Refines (c ∷ cs) m w refines =
        let (r, w') = run_call c w in
        run_calls-Refines cs (after c r m) w' (step_Refines c m w w' r refl refines)
