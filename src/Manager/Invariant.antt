-- ===== src/Manager/Invariant.antt =====
-- What holds of a manager between two operations.
pub mod Kept
use disguise.Common.{
  ℕ, zero, suc, ◌+◌, ◌^◌, ◌<◌, ◌≡◌, refl, List, [], ◌∷◌, ◌++◌, Bool, true, false, All, arith,
}
use disguise.Common.Floats.{Floats}
use disguise.Profile.{Profile, get_profile, dynamic}
use disguise.Profile.Draws.{IsUsable, get_profile-IsUsable}
use disguise.Framing.{Cell, IsCell, new_framer}
use disguise.Scheduler.{Item, new_scheduler}
use disguise.Scheduler.View.{entry, entries}
use disguise.Scheduler.Send.{IsQueue}
use disguise.Classifier.{new_classifier}
use disguise.Classifier.Train.{IsModel, new_classifier-IsModel}
use disguise.Manager.{Manager, new_manager}
use native.Mathlib.Bridge.{le_prop}
use mathlib.Core.List.{Mem, Perm, mem-cons, not-mem-nil}
use mathlib.Core.List.Perm
use mathlib.Core.Logic.Or

pub IsCell-prop : (c : Cell) → IsProp (IsCell c)
IsCell-prop c = hlevel le_prop

-- Every queued cell has fields in range.
abbrev pub AreCells : List Item → Type 0
AreCells pq = (x : Cell × ℕ) → Mem x (entries pq) → IsCell x.0

pub AreCells-perm :
    (pq pq' : List Item) (c : Cell) (due : ℕ)
    → Perm (entries pq') ((c, due) ∷ entries pq)
    → IsCell c
    → AreCells pq
    → AreCells pq'
AreCells-perm pq pq' c due same h all = λ x m.
    Or.elim (IsCell-prop x.0) (mem-cons.0 ((Perm.mem_iff same).0 m)) (λ e. rw e h) (λ n. all x n)

module _ ⦃F : Floats⦄ where
  pub record IsManager (m : Manager) : Type 0 where
    pub open_lock : m.locked ≡ false
    pub usable : IsUsable m.framer.profile
    pub numbered : m.framer.seq < 4294967296
    pub queue : IsQueue m.scheduler.queue
    pub cells : AreCells m.scheduler.queue
    pub model : IsModel m.classifier
    pub buckets : All (λ o. o < 3) m.observation_queue

  pub new_manager-IsManager : (now : ℕ) → IsManager (new_manager now)
  unfolding new_manager new_framer new_scheduler
  new_manager-IsManager now = record {
    open_lock = refl;
    usable = get_profile-IsUsable dynamic;
    numbered = omega arith;
    queue = record { heap = λ c p q. absurd (omega arith); indexed = λ c q. absurd (omega arith) };
    cells = λ x m. absurd (not-mem-nil m);
    model = new_classifier-IsModel;
    buckets = tt;
  }
