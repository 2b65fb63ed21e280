-- ===== src/Terminal/Alone.antt =====
-- Runs in which the calls of `handleStart` of one client do not overlap.
use kudeploy.Prelude.{ℕ, ◌≡◌, refl, sym, true, false, Option, none, some, Text}
use kudeploy.Terminal.State.{Gateway, is_positive_integer}
use kudeploy.Terminal.Start.{
  handle_connection, handle_disconnect, pods_listed, service_found, shell_opened, startup_settled,
}
use kudeploy.Terminal.Events.{
  handle_data, handle_resize, output_written, resized, startup_timed_out, written,
}
use kudeploy.Terminal.Valid.{is_pending, IsValid, close_session-later, truth_differs}
use kudeploy.Terminal.Steps.{
  Step, connects, disconnects, starts, finds, lists, opens, settles, times_out, changes_status,
  types, resizes, prints, Step-IsValid, begin, Interleaved-IsValid, like-IsValid, initial_gateway,
}
use kudeploy.Terminal.Owned.{IsOwned}
use kudeploy.Terminal.Solo.{
  emit-IsOwned, connected-IsOwned, close_session-IsOwned, like-IsOwned, found_at-IsOwned,
  listed_at-IsOwned, opened_at-IsOwned, settled_at-IsOwned, on_status-IsOwned, handle_start-IsOwned,
}

-- If the step starts a call, then no other call of its client goes on.
abbrev pub IsAlone : {g h : Gateway} → Step g h → Type 0
IsAlone {g} (starts p client context payload fresh) =
    (q : ℕ) → is_pending (g.calls q).stage ≡ true → (g.calls q).client ≡ client → ⊥
IsAlone _ = Unit

pub data SoloReachable : Gateway → Type 0 where
  solo_begin : SoloReachable initial_gateway
  solo_next : {g h : Gateway} → SoloReachable g → (s : Step g h) → IsAlone s → SoloReachable h

module _ (g : Gateway) (valid : IsValid g) (v : IsOwned g) where
  handle_disconnect-IsOwned : (client : Text) → IsOwned (handle_disconnect client g)
  unfolding handle_disconnect
  handle_disconnect-IsOwned client =
      rw (close_session-later client g)
        (connected-IsOwned client false _ (close_session-IsOwned client none g tt valid v))

  written-IsOwned : (session : Option ℕ) (text : Option Text) → IsOwned (written session text g)
  written-IsOwned none text = v
  written-IsOwned (some p) none = v
  written-IsOwned (some p) (some text) = like-IsOwned p g v _ refl refl refl refl

  resized-IsOwned : (session columns rows : Option ℕ) → IsOwned (resized session columns rows g)
  resized-IsOwned none columns rows = v
  resized-IsOwned (some p) none rows = v
  resized-IsOwned (some p) (some columns) none = v
  resized-IsOwned (some p) (some columns) (some rows) = like-IsOwned p g v _ refl refl refl refl

Step-IsOwned : {g h : Gateway} (s : Step g h) → IsAlone s → IsValid g → IsOwned g → IsOwned h
unfolding handle_connection service_found pods_listed shell_opened startup_settled startup_timed_out
    handle_data handle_resize output_written
Step-IsOwned {g} (connects client) a valid v = connected-IsOwned client true g v
Step-IsOwned {g} (disconnects client) a valid v = handle_disconnect-IsOwned g valid v client
Step-IsOwned {g} (starts p client context payload fresh) a valid v =
    handle_start-IsOwned p g v valid client context payload a
Step-IsOwned {g} (finds p answer) a valid v = found_at-IsOwned p g v _ answer refl
Step-IsOwned {g} (lists p answer) a valid v = listed_at-IsOwned p g v _ answer refl
Step-IsOwned {g} (opens p answer) a valid v = opened_at-IsOwned p g v _ answer refl
Step-IsOwned {g} (settles p) a valid v = settled_at-IsOwned p g v _ _ refl
Step-IsOwned {g} (times_out p) a valid v = like-IsOwned p g v _ refl refl refl refl
Step-IsOwned {g} (changes_status p status) a valid v =
    on_status-IsOwned p g v valid status (like-IsValid p g valid _ refl refl refl)
Step-IsOwned {g} (types client text) a valid v = written-IsOwned g valid v (g.sessions client) text
Step-IsOwned {g} (resizes client columns rows) a valid v =
    resized-IsOwned g valid v (g.sessions client) (is_positive_integer columns)
      (is_positive_integer rows)
Step-IsOwned {g} (prints p chunk) a valid v = emit-IsOwned _ _ _ v

both : {g : Gateway} → SoloReachable g → IsValid g × IsOwned g
both solo_begin = (
  Interleaved-IsValid begin,
  record {
    alone = λ p q a b c. absurd (truth_differs (sym a));
    waiting = λ p a. refl;
    owned = λ p e l. absurd (truth_differs (sym l.0));
    unopened = λ p a. refl;
  },
)
both (solo_next r s a) = let (valid, v) = both r in (Step-IsValid s valid, Step-IsOwned s a valid v)

-- Where the calls of a client do not overlap, what is not marked as closed has its owner.
pub SoloReachable-IsOwned : {g : Gateway} → SoloReachable g → IsOwned g
SoloReachable-IsOwned r = (both r).1
