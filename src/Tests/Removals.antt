-- ===== src/Tests/Removals.antt =====
-- The removal of windows, and the search for the next focus, at concrete inputs.
use miral.Prelude.{
  ℕ, ◌≡◌, ◌∙◌, refl, sym, ap, subst, inl, inr, Option, none, some, [], ◌∷◌, ◌==◌, if◌then◌else◌,
  arith, Bool, true, contains,
}
use miral.MruWindowList.{Window}
use miral.WindowInfo.{WindowInfo, can_be_active, is_visible}
use miral.BasicWindowManager.State.{
  application_for, Manager, ok, find_info, info_for, alive, handle, visible, info_visible,
}
use miral.BasicWindowManager.Family.{IsFamily}
use miral.BasicWindowManager.Forest.{Known}
use miral.BasicWindowManager.Focus.{can_have_focus}
use miral.BasicWindowManager.Refocus.{FocusController, refocus}
use miral.BasicWindowManager.Refocus.Attempts.{Focused}
use miral.BasicWindowManager.Refocus.Outcome.{refocus-Finds}
use miral.BasicWindowManager.Refocus.Termination.{ComesRound, refocus-Returns}
use miral.BasicWindowManager.Removal.{remove_window}
use miral.BasicWindowManager.Removal.Forgotten.{Forgotten}
use miral.BasicWindowManager.Removal.Refocused.{remove_window-Forgotten}
use miral.Tests.Samples.{SampleSurface, surfaces}
use miral.Tests.Managers.{
  manager, manager-IsForest, depth, known, no_handle, parent_window, child_window,
}

-- One application; the focus controller names the dialog.
abbrev controller : FocusController
controller = record { focused_session = λ k. some 7; focused_surface = λ k. some 2 }

abbrev pub lives : ℕ → Bool
lives workspace = true

abbrev destroyed : Window → (Window → Option SampleSurface) → Window → Option SampleSurface
destroyed w all v = if v == w then none else all v

child_of :
    (c p : Window) (info : WindowInfo)
    → p ≡ 1
    → c ≡ 2
    → info_for manager c ≡ ok info
    → handle manager info.parent ≡ some p
unfolding info_for find_info alive
child_of c p info one two e = elim (known c info e) [
  | inl (is, has) ↦ absurd (omega (arith, is, two))
  | inr (is, has) ↦ ap (λ x. handle manager x.parent) has ∙ ap some (sym one)
]

pub manager-IsFamily : IsFamily manager depth 1
unfolding info_for find_info alive
manager-IsFamily = record {
  forest = manager-IsForest;
  listed = λ w p info e above. elim (known w info e) [
    | inl (is, has) ↦ absurd (no_handle (ap (λ i. handle manager i.parent) (sym has) ∙ above))
    | inr (is, has) ↦
        let one : 1 ≡ p = ground (arith, ap (λ i. handle manager i.parent) (sym has) ∙ above) in
        (parent_window, ap (info_for manager) (sym one), ap (λ x. contains x (2 ∷ [])) is)
  ];
  parent_of = λ p c i info e h e'. elim (known p i e) [
    | inr (is, has) ↦
        let none_listed = subst (λ x. contains c x.children ≡ true) has h in
        absurd (ground (arith, none_listed))
    | inl (is, has) ↦
        let listed = subst (λ x. contains c x.children ≡ true) has h in
        child_of c p info is (ground (arith, listed)) e'
  ];
  distinct =
      λ p i e. elim (known p i e) [ inl (is, has) ↦ rw has (refl, tt) | inr (is, has) ↦ rw has tt ];
}

comes_round : ComesRound controller 0 1 (some 7)
unfolding ComesRound
comes_round = (1, omega arith, omega arith, refl)

remove_window-Forgotten_example :
    (m' : Manager SampleSurface) × (remove_window surfaces 4 controller lives 1 destroyed manager 7
        parent_window
      ≡ ok m')
    × Forgotten 1 m'
    × IsFamily m' depth 1
unfolding info_for find_info application_for
remove_window-Forgotten_example =
    remove_window-Forgotten surfaces controller lives 1 destroyed manager depth 1 7 parent_window
      (λ w v all. refl) manager-IsFamily refl refl
      (((refl, (refl, tt)), (λ e. absurd (e refl))), tt)
      (λ k v e.
        let two : 2 ≡ v = ground (arith, e) in
        (ap (λ x. x == 1) (sym two), subst (Known manager) two (child_window, refl)))
      (λ p k. comes_round)

refocus-Finds_example :
    (v : Window) × (m' : Manager SampleSurface) × (refocus surfaces 4 controller lives 0 7 none []
        manager
      ≡ ok (some v, m'))
unfolding info_for find_info visible can_have_focus can_be_active info_visible is_visible
refocus-Finds_example =
    refocus-Finds surfaces controller manager depth 1 lives 0 7 none [] 1 manager-IsForest
      (λ p e. absurd (no_handle e))
      (record {
        info = parent_window;
        known = refl;
        active = refl;
        is_visible = refl;
        can_have_focus = refl;
      })

refocus-Returns_example :
    (r : Option Window × Manager SampleSurface) × (refocus surfaces 4 controller lives 1 7 none []
        manager
      ≡ ok r)
    × Focused surfaces manager depth 1 manager-IsForest r
unfolding info_for find_info
refocus-Returns_example =
    refocus-Returns surfaces controller manager depth 1 lives 1 7 none [] manager-IsForest
      (λ p e. absurd (no_handle e))
      (λ k v e.
        let two : 2 ≡ v = ground (arith, e) in subst (Known manager) two (child_window, refl))
      (λ p e. comes_round)
