-- ===== src/Connection/Promises.antt =====
-- The promises of websocket/websocket_client.hpp.
use mathlib.Core.Path.{subst}
use crypto_bot.Prelude.{
  ◌≡◌, refl, sym, ap, ◌∙◌, exited, future_error, Bool, true, false, if◌then◌else◌, String, Outcome,
  ok, throws, ◌>>=◌, Bool-cases, inl, inr, ok-injective, not_thrown,
}
use crypto_bot.Connection.{
  Handlers, WebsocketClient, connecting, connected, start, on_open, on_close, on_fail, on_message,
  reconnect, Step, opens, fails, closes, receives, Run, started, next_call,
}

not_both : connected ≡ connecting → ⊥
not_both e = cc

module _ {ℓ} {S : Type ℓ} {M : Type 0} (h : Handlers S M) (accepts : String → Bool) where
  -- While a connection is asked for, its promise has no value, and it goes to the address that the
  -- derived class has.
  abbrev IsFresh : WebsocketClient S → Type 0
  IsFresh c = c.phase ≡ connecting → (c.promise_set ≡ false) × (c.target ≡ h.uri c.own)

  start-IsFresh : (c : WebsocketClient S) → IsFresh (start h accepts c)
  unfolding start
  start-IsFresh c = elim (Bool-cases (accepts (h.uri c.own))) [
    | inl e ↦ rw (e, start) (λ p. (refl, refl))
    | inr e ↦ rw (e, start) (λ p. absurd cc)
  ]

  reconnect-IsFresh : (c c' : WebsocketClient S) → reconnect h accepts c ≡ ok c' → IsFresh c'
  unfolding reconnect
  reconnect-IsFresh c c' e = by_flag c.do_reconnect e
    where
      by_flag :
          (b : Bool) → (if b then ok (start h accepts c) else throws exited) ≡ ok c' → IsFresh c'
      by_flag true k = subst IsFresh (ok-injective k) (start-IsFresh c)
      by_flag false k = absurd (not_thrown k)

  on_open-connected : (a b : WebsocketClient S) → on_open h accepts a ≡ ok b → b.phase ≡ connected
  unfolding on_open
  on_open-connected a b e = by_promise a.promise_set (h.opened a.own) e
    where
      by_promise :
          (set : Bool) (o : Outcome S)
          → (if set
              then throws future_error
              else (o >>= λ own.
                  ok (record a { own = own; promise_set = true; phase = connected })))
            ≡ ok b
          → b.phase ≡ connected
      by_promise true o k = absurd (not_thrown k)
      by_promise false (throws x) k = absurd (not_thrown k)
      by_promise false (ok own) k = sym (ap (λ c. c.phase) (ok-injective k))

  on_close-IsFresh : (a b : WebsocketClient S) → on_close h accepts a ≡ ok b → IsFresh b
  unfolding on_close
  on_close-IsFresh a b e = by_closed (h.closed a.own) e
    where
      by_closed :
          (o : Outcome S)
          → (o >>= λ own. reconnect h accepts (record a { own = own })) ≡ ok b
          → IsFresh b
      by_closed (throws x) k = absurd (not_thrown k)
      by_closed (ok own) k = reconnect-IsFresh (record a { own = own }) b k

  step-IsFresh : (a b : WebsocketClient S) → Step h accepts a b → IsFresh a → IsFresh b
  unfolding on_fail on_message
  step-IsFresh a b (opens p e) f = λ q. absurd (not_both (sym (on_open-connected a b e) ∙ q))
  step-IsFresh a b (fails p e) f = reconnect-IsFresh a b e
  step-IsFresh a b (closes p e) f = on_close-IsFresh a b e
  step-IsFresh a _ (receives m p) f = λ q. absurd (not_both (sym p ∙ q))

  Run-IsFresh : {c a : WebsocketClient S} → Run h accepts c a → IsFresh a
  Run-IsFresh {c} started = start-IsFresh c
  Run-IsFresh (next_call r s) = step-IsFresh _ _ s (Run-IsFresh r)

  -- Whatever websocketpp has called since the start, when the connection that is asked for opens,
  -- the promise of the last start has no value yet: setting it does not throw, and `on_open` ends
  -- as the handler of the derived class does. The connection goes to the address that the derived
  -- class has by then, also where the handler of a close has changed it.
  pub on_open-IsOpened :
      {c a : WebsocketClient S}
      → Run h accepts c a
      → a.phase ≡ connecting
      → (on_open h accepts a ≡ (
          h.opened a.own >>= λ own.
          ok (record a { own = own; promise_set = true; phase = connected })))
        × (a.target ≡ h.uri a.own)
  unfolding on_open
  on_open-IsOpened {a = a} r p =
      let (unset, target) = Run-IsFresh r p in (rw (unset, on_open) refl, target)
