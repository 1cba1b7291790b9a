-- ===== src/Nemu/Alarm.antt =====
-- nemu/src/device/alarm.c: the handlers that run at each alarm of the host.
use model_lib.Base.{ℕ, ◌≡◌, refl, sym, ap, ◌∙◌, List, [], ◌∷◌, ◌++◌, ltb, length}
use model_lib.Outcome.{Outcome, ok, ◌>>◌, check, >>=-eq-ok}

abbrev pub max_handler : ℕ
max_handler = 8

module _ {S : Type 0} where
  -- `idx` is the length of the list.
  unfoldable pub add_alarm_handle : (S → S) → List (S → S) → Outcome (List (S → S))
  add_alarm_handle h handlers = do
    check (ltb (length handlers) max_handler)
    ok (handlers ++ h ∷ [])

  unfoldable pub alarm_sig_handler : List (S → S) → S → S
  alarm_sig_handler [] s = s
  alarm_sig_handler (h ∷ hs) s = alarm_sig_handler hs (h s)

  ok_value : {a b : List (S → S)} → ok a ≡ ok b → a ≡ b
  ok_value e = cc

  alarm_sig_handler-append :
      (hs : List (S → S)) (h : S → S) (s : S)
      → alarm_sig_handler (hs ++ h ∷ []) s ≡ h (alarm_sig_handler hs s)
  unfolding alarm_sig_handler
  alarm_sig_handler-append [] h s = refl
  alarm_sig_handler-append (x ∷ xs) h s = alarm_sig_handler-append xs h (x s)

  -- A handler that is added runs behind all others.
  pub alarm_sig_handler-add_alarm_handle :
      (h : S → S) (hs hs' : List (S → S)) (s : S)
      → add_alarm_handle h hs ≡ ok hs'
      → alarm_sig_handler hs' s ≡ h (alarm_sig_handler hs s)
  unfolding add_alarm_handle
  alarm_sig_handler-add_alarm_handle h hs hs' s e =
      let (one, room, same) = >>=-eq-ok (check (ltb (length hs) max_handler)) _ e in
      ap (λ (l : List (S → S)). alarm_sig_handler l s) (sym (ok_value same))
      ∙ alarm_sig_handler-append hs h s
