-- ===== src/Messages/Consumed.antt =====
-- src/messageBus.ts, `consumedMessageConversations`: the conversations that the message has reached.
use charterion.Prelude.{
  Text, ◌≡◌, refl, List, [], ◌∷◌, Bool, true, false, ◌||◌, ◌&&◌, if◌then◌else◌, arith, same,
  includes, text_eq, any, Result, ok, err,
}
use charterion.Contracts.{AgentMessage, SendAttemptRecord}
use charterion.Messages.{
  PlanError, consumed_by, is_empty, consumed_message_conversations, is_consumed, is_uncertain,
}

-- The message has an attempt in this conversation that may have reached it.
unfoldable pub has_delivery : AgentMessage → List SendAttemptRecord → Text → Bool
has_delivery m attempts key =
    any
      (λ a.
        includes m.attempt_ids a.attempt_id
        && same a.conversation_key key
        && (is_consumed a.state || is_uncertain a.state))
      attempts

goes_on :
    (stops : Bool) (rest : Result PlanError (List Text)) {consumed : List Text}
    → (if stops then err PlanError.may_duplicate else rest) ≡ ok consumed
    → (stops ≡ false) × (rest ≡ ok consumed)
goes_on true rest h = cc
goes_on false rest h = (refl, h)

enter-includes :
    (mine consumed : Bool) (own : Text) (before : List Text) (key : Text)
    → includes (if mine && consumed then own ∷ before else before) key ≡ false
    → (includes before key ≡ false) × ((mine && consumed && same own key) ≡ false)
unfolding includes
enter-includes mine consumed own before key h = (ground arith, ground arith)

counted :
    (mine here consumed stops rest : Bool)
    → (mine && stops) ≡ false
    → (mine && consumed && here) ≡ false
    → rest ≡ false
    → ((mine && here && (consumed || stops)) || rest) ≡ false
counted mine here consumed stops rest h k l = ground arith

no_delivery :
    (attempts : List SendAttemptRecord) (key : Text)
    → any
        (λ a.
          includes [] a.attempt_id
          && same a.conversation_key key
          && (is_consumed a.state || is_uncertain a.state))
        attempts
      ≡ false
unfolding any includes
no_delivery [] key = refl
no_delivery (a ∷ more) key = no_delivery more key

-- A conversation that is not consumed has no delivery.
consumed_by_complete :
    (owned : List Text) (attempts : List SendAttemptRecord) (before consumed : List Text)
    (key : Text)
    → consumed_by owned attempts before ≡ ok consumed
    → includes consumed key ≡ false
    → (includes before key ≡ false)
      × (any
            (λ a.
              includes owned a.attempt_id
              && same a.conversation_key key
              && (is_consumed a.state || is_uncertain a.state))
            attempts
          ≡ false)
unfolding consumed_by any includes
consumed_by_complete owned [] before consumed key h k = (cc, refl)
consumed_by_complete owned (a ∷ more) before consumed key h k =
    let next =
      (if includes owned a.attempt_id && is_consumed a.state
        then a.conversation_key ∷ before
        else before) in
    let stops = includes owned a.attempt_id && is_uncertain a.state in
    let go_on : (stops ≡ false) × (consumed_by owned more next ≡ ok consumed) = goes_on stops _ h in
    let ih = consumed_by_complete owned more next consumed key go_on.1 k in
    let entered =
      enter-includes (includes owned a.attempt_id) (is_consumed a.state) a.conversation_key before
        key ih.0 in
    (
      entered.0,
      counted _ (same a.conversation_key key) (is_consumed a.state) (is_uncertain a.state) _ go_on.0
          entered.1 ih.1,
    )

pub consumed_complete :
    (m : AgentMessage) (attempts : List SendAttemptRecord) (consumed : List Text) (key : Text)
    → consumed_message_conversations m attempts ≡ ok consumed
    → includes consumed key ≡ false
    → has_delivery m attempts key ≡ false
unfolding consumed_message_conversations has_delivery
consumed_complete m attempts consumed key h k = by_ids m.attempt_ids h
  where
    by_ids :
        (owned : List Text)
        → (if is_empty owned then ok [] else consumed_by owned attempts []) ≡ ok consumed
        → any
            (λ a.
              includes owned a.attempt_id
              && same a.conversation_key key
              && (is_consumed a.state || is_uncertain a.state))
            attempts
          ≡ false
    by_ids [] e = no_delivery attempts key
    by_ids (i ∷ is) e = (consumed_by_complete (i ∷ is) attempts [] consumed key e k).1
