-- ===== src/Timer/Pointers/Course/Outside.antt =====
-- bt_timer_del and bt_timer_update of src/bt_timer.c for what is not in the ring.
use bt_server.Common.{ℕ, ◌≡◌, ◌≢◌, refl, inl, inr, true, false, none, List, Bool-cases, sym}
use bt_server.Links.{Store, list_del, poison1, prev_at, write, write_all}
use bt_server.Timer.{Timer, find}
use bt_server.Timer.Table.Find.{Absent-find}
use bt_server.Timer.Pointers.{Memory, undefined, bt_timer_del, bt_timer_update}
use bt_server.Timer.Pointers.Shape.{Poisoned, Absent-NotIn}
use bt_server.Timer.Pointers.Client.{list_del_dead}

-- list_del writes to where the link of the node points to.
list_del_poisoned :
    (p : ℕ) (s : Store)
    → s.live p ≡ true
    → s.next p ≡ poison1
    → s.live poison1 ≡ false
    → list_del p s ≡ none
unfolding list_del write_all
list_del_poisoned p s l h b = rw (prev_at, l, h, write_all, write, b) refl

list_del_outside :
    (p : ℕ) (list : List Timer) (m : Memory)
    → Poisoned m list
    → m.links.live poison1 ≡ false
    → p ≢ m.head
    → find p list ≡ none
    → list_del p m.links ≡ none
list_del_outside p list m c b n e = elim (Bool-cases (m.links.live p)) [
  | inl l ↦
      list_del_poisoned p m.links l
        (c p l ((λ z. n (sym z)), Absent-NotIn p list (Absent-find p list e))) b
  | inr l ↦ list_del_dead p m.links l
]

pub del_outside :
    (p : ℕ) (list : List Timer) (m : Memory)
    → Poisoned m list
    → m.links.live poison1 ≡ false
    → p ≢ m.head
    → find p list ≡ none
    → bt_timer_del p m ≡ undefined
unfolding bt_timer_del
del_outside p list m c b n e = rw (list_del_outside p list m c b n e) refl

pub update_outside :
    (g p : ℕ) (list : List Timer) (m : Memory)
    → Poisoned m list
    → m.links.live poison1 ≡ false
    → p ≢ m.head
    → find p list ≡ none
    → bt_timer_update g p m ≡ undefined
unfolding bt_timer_update
update_outside g p list m c b n e = rw (list_del_outside p list m c b n e) refl
