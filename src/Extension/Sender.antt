-- ===== src/Extension/Sender.antt =====
-- packages/extension/src/lib/sender-validation.ts: whether a message comes from a web page.
use holo_web_conductor.Common.{
  ◌≡◌, refl, Bool, true, false, not, ◌&&◌, Option, none, some, [], ◌∷◌, ◌++◌, Text, if◌then◌else◌,
  codes, starts_with, is_some, Option-cases, inl, inr,
}

-- `chrome.runtime.MessageSender`: the address of the sender, and of its tab, if it has one. An
-- empty address counts as none.
pub record MessageSender : Type 0 where
  pub tab : Option Text
  pub url : Text

-- `a || b`, on texts
abbrev pub or_text : Text → Text → Text
or_text [] b = b
or_text (c ∷ cs) b = c ∷ cs

-- `isTabSender`
unfoldable pub is_tab_sender : MessageSender → Bool
is_tab_sender s = elim s.tab [
  | none ↦ false
  | some tab_url ↦
      let url = or_text tab_url s.url in
      not (starts_with (codes "chrome-extension://") url)
      && not (starts_with (codes "moz-extension://") url)
]

-- `rejectTabSender`: the error that it answers with.
unfoldable pub reject_tab_sender : MessageSender → (operation : Text) → Option Text
reject_tab_sender s operation = elim s.tab [
  | none ↦ none
  | some tab_url ↦
      let url = or_text tab_url s.url in
      if not (starts_with (codes "chrome-extension://") url)
        && not (starts_with (codes "moz-extension://") url)
      then some (operation ++ codes " is not allowed from web pages")
      else none
]

-- `getOriginFromSender`; `origin_of` is `new URL(url).origin`, and none where that throws.
unfoldable pub get_origin_from_sender :
    (origin_of : Text → Option Text) → MessageSender → Option Text
get_origin_from_sender origin_of s = elim s.tab [
  | none ↦ none
  | some [] ↦ none
  | some (c ∷ cs) ↦ origin_of (c ∷ cs)
]

reject_split : (test : Bool) (message : Text) → is_some (if test then some message else none) ≡ test
reject_split true message = refl
reject_split false message = refl

-- The two guards agree: an operation is refused to exactly the senders that count as web pages, and
-- never to one without a tab.
pub reject-is_tab_sender :
    (s : MessageSender) (operation : Text)
    → is_some (reject_tab_sender s operation) ≡ is_tab_sender s
unfolding reject_tab_sender is_tab_sender
reject-is_tab_sender s operation = elim (Option-cases s.tab) [
  | inl e ↦ rw (e, reject_tab_sender, is_tab_sender) refl
  | inr (tab_url, e) ↦ rw (e, reject_tab_sender, is_tab_sender) (reject_split _ _)
]
