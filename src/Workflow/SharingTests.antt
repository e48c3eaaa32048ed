-- ===== src/Workflow/SharingTests.antt =====
-- A link that is created on concrete data.
use bom_trato_api.Prelude.{◌≡◌, refl, true, false, none, some, [], ◌∷◌, Memᴰ, nat}
use bom_trato_api.Prelude.Result.{ok}
use bom_trato_api.Prelude.Text.{codes}
use bom_trato_api.Prelude.Date.{at}
use bom_trato_api.Organization.Access.{AccessContext, assert_can_operate, assert_verified_member}
use bom_trato_api.Quote.Types.{QuoteProps}
use bom_trato_api.Quote.Entity.{assert_version}
use bom_trato_api.Quote.Store.{find_quote}
use bom_trato_api.Quote.Share.{QuoteShareProps, create_share}
use bom_trato_api.Quote.Samples.{sent_quote}
use bom_trato_api.Notification.Outbox.{insert, new_row}
use bom_trato_api.Notification.Automation.{should_skip_automation}
use bom_trato_api.Workflow.Sharing.{
  ShareTables, ShareParams, revoke_for_quote, wants_follow_up, follow_up, share_loaded,
  create_quote_share,
}
use bom_trato_api.Workflow.Shared.{
  records_of, create_quote_share-one_link, create_quote_share-follow_up,
}

abbrev access : AccessContext
access = record {
  is_member = true;
  verified = true;
  has_subscription_access = true;
  billing_needs_reconciliation = false;
}

abbrev mailed_quote : QuoteProps
mailed_quote = record sent_quote { customer_email = some (codes "ana@casa.com") }

abbrev share : QuoteShareProps
share = record {
  id = 80;
  organization_id = 2;
  quote_id = 1;
  quote_version = 4;
  token_hash = codes "c0ffee";
  created_by_id = 5;
  created_at = at 20;
  expires_at = at 300000000;
  revoked_at = none;
  decision = none;
  decided_at = none;
  decided_version = none;
  change_requested_at = none;
  change_request_message = none;
}

abbrev older : QuoteShareProps
older = record share { id = 79; token_hash = codes "decaf"; created_at = at 12 }

abbrev params : ShareParams
params = record {
  quote_id = 1;
  version = nat 4;
  share = record { id = 80; token_hash = codes "c0ffee"; user_id = 5; expires_at = at 300000000 };
  auto_follow_up = some true;
  notification_id = 90;
  notification_key = codes "automation/quote-follow-up/80";
  encrypted_payload = codes "sealed";
  now = at 20;
}

abbrev tables : ShareTables
tables = record { quotes = mailed_quote ∷ []; shares = older ∷ []; outbox = [] }

abbrev left : ShareTables
left = record {
  quotes = mailed_quote ∷ [];
  shares = share ∷ record older { revoked_at = some (at 20) } ∷ [];
  outbox = new_row (follow_up params mailed_quote share) (at 20) ∷ [];
}

shares_it : create_quote_share access params tables ≡ ok (share, left)
unfolding create_quote_share share_loaded assert_can_operate assert_verified_member find_quote
    assert_version create_share revoke_for_quote wants_follow_up insert
shares_it = refl

create_quote_share-one_link_example : share ≡ share
create_quote_share-one_link_example =
    create_quote_share-one_link access params tables left share share shares_it (Memᴰ.head refl)
      refl refl

finds_it : find_quote 1 tables.quotes ≡ some mailed_quote
unfolding find_quote
finds_it = refl

create_quote_share-follow_up_example :
    (left.outbox ≡ new_row (follow_up params mailed_quote share) (at 20) ∷ [])
    × (should_skip_automation
          (new_row (follow_up params mailed_quote share) (at 20))
          (at 180000000)
          (records_of left)
        ≡ false)
create_quote_share-follow_up_example =
    create_quote_share-follow_up access params tables left share mailed_quote (at 180000000)
      shares_it finds_it refl refl refl refl refl
