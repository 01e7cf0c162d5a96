-- ===== src/Logging/Secrets.antt =====
-- mt5_agent/logging_utils.py: what of a value under a secret key is left.
use llm_mt5_agent.Prelude.{String, ◌≡◌, refl, ap, true}
use llm_mt5_agent.Ai.Json.{Json, object, array, Items, no_item, item, Members, no_member, member}
use llm_mt5_agent.Logging.{
  Patterns, is_secret_key, scrub_value, scrub_items, scrub_members, audit_fields, filtered_fields,
}

module _ {F : Type 0} (p : Patterns) where
  -- Two values that are the same but for what stands under secret keys, at any depth.
  mutual
    pub data Alike : Json F → Json F → Type 0 where
      same : (v : Json F) → Alike v v
      arrays : {xs ys : Items F} → AlikeItems xs ys → Alike (array xs) (array ys)
      objects : {xs ys : Members F} → AlikeMembers xs ys → Alike (object xs) (object ys)

    pub data AlikeItems : Items F → Items F → Type 0 where
      none_left : AlikeItems no_item no_item
      both :
          {v w : Json F} {xs ys : Items F}
          → Alike v w
          → AlikeItems xs ys
          → AlikeItems (item v xs) (item w ys)

    pub data AlikeMembers : Members F → Members F → Type 0 where
      ended : AlikeMembers no_member no_member
      hidden :
          {v w : Json F} {xs ys : Members F} (key : String)
          → is_secret_key p key ≡ true
          → AlikeMembers xs ys
          → AlikeMembers (member key v xs) (member key w ys)
      shown :
          {v w : Json F} {xs ys : Members F} (key : String)
          → Alike v w
          → AlikeMembers xs ys
          → AlikeMembers (member key v xs) (member key w ys)

  mutual
    unfolding scrub_value scrub_items scrub_members

    scrub_value-Alike : {v w : Json F} → Alike v w → scrub_value p v ≡ scrub_value p w
    scrub_value-Alike (same v) = refl
    scrub_value-Alike (arrays h) = ap array (scrub_items-Alike h)
    scrub_value-Alike (objects h) = ap object (scrub_members-Alike h)

    scrub_items-Alike : {xs ys : Items F} → AlikeItems xs ys → scrub_items p xs ≡ scrub_items p ys
    scrub_items-Alike none_left = refl
    scrub_items-Alike (both h k) = rw (scrub_value-Alike h, scrub_items-Alike k) refl

    scrub_members-Alike :
        {xs ys : Members F} → AlikeMembers xs ys → scrub_members p xs ≡ scrub_members p ys
    scrub_members-Alike ended = refl
    scrub_members-Alike (hidden key s k) = rw (s, scrub_members-Alike k) refl
    scrub_members-Alike (shown key h k) = rw (scrub_value-Alike h, scrub_members-Alike k) refl

  -- An audit event whose fields differ only under secret keys, at any depth, reaches the handlers as
  -- one and the same event: nothing of the values under such keys can be read off it.
  pub audit_fields-Alike :
      (event ts : String) {xs ys : Members F}
      → AlikeMembers xs ys
      → filtered_fields p (audit_fields p event ts xs)
        ≡ filtered_fields p (audit_fields p event ts ys)
  unfolding audit_fields
  audit_fields-Alike event ts h = rw (scrub_members-Alike h) refl
