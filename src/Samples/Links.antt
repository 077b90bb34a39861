-- ===== src/Samples/Links.antt =====
-- samples/mediator.ts with modules/connections: the link of `/invitation` opens the invitation that
-- the mediator has stored.
use aries_framework_javascri.Prelude.{
  strip_prefix, ℕ, String, true, some, none, List, is_some, ◌≡◌, refl, sym, ap, ◌∙◌,
}
use aries_framework_javascri.Exec.{ok, Fresh, bind-ok, or_throw-ok, ok-run, returned}
use aries_framework_javascri.Message.{matches_message_id}
use aries_framework_javascri.Agent.Config.{AgentConfig}
use aries_framework_javascri.Connections.Record.{ConnectionRecord, ConnectionInvitationMessage}
use aries_framework_javascri.Connections.Service.{
  ConnectionDeps, Connecting, InvitationConfig, create_invitation,
}
use aries_framework_javascri.Connections.Module.{ConnectionSending, create_connection}
use aries_framework_javascri.Connections.Invitation.{
  InvitationCodec, plain_of, is_valid_invitation, after, marker, encode_invitation_to_url,
  decode_invitation_from_url,
}
use aries_framework_javascri.Connections.Invitation.RoundTrip.{IsReadable, decode-encode_invitation}
use aries_framework_javascri.Samples.Mediator.{get_invitation, default_domain}

-- An invitation by keys, with this id.
abbrev ByKeys : String → ConnectionInvitationMessage → Type 0
ByKeys id invitation =
    (invitation.base.id ≡ some id)
    × (invitation.did ≡ none)
    × (is_some invitation.recipient_keys ≡ true)
    × (is_some invitation.service_endpoint ≡ true)

ByKeys-Valid :
    (id : String) (invitation : ConnectionInvitationMessage)
    → ByKeys id invitation
    → matches_message_id (some id) ≡ true
    → is_valid_invitation (plain_of invitation) ≡ true
unfolding is_valid_invitation
ByKeys-Valid id invitation (named, no_did, keys, endpoint) accepted =
    rw (named, no_did, keys, endpoint, accepted) refl

module _ {W J : Type 0} (deps : ConnectionDeps W J) (config : AgentConfig) where
  create_invitation-ByKeys :
      (fresh : Fresh) (options : InvitationConfig) (s : Connecting W)
      {invitation : ConnectionInvitationMessage} {inviting : ConnectionRecord} {s' : Connecting W}
      → create_invitation deps config fresh options s ≡ (ok (invitation, inviting), s')
      → ByKeys fresh.message_id invitation × (inviting.invitation ≡ some invitation)
  unfolding create_invitation
  create_invitation-ByKeys fresh options s {invitation} made =
      let (c, _, more) = bind-ok _ _ s made in
      let (service, _, more) = or_throw-ok _ _ _ _ more in
      let (_, _, more) = bind-ok _ _ _ more in
      let (_, _, more) = bind-ok _ _ _ more in
      let both = returned more in
      let same = sym (ap (λ p. p.0) both) in
      (
        (
          ap (λ i. i.base.id) same,
          ap (λ i. i.did) same,
          ap (λ i. is_some i.recipient_keys) same,
          ap (λ i. is_some i.service_endpoint) same,
        ),
        ap (λ p. p.1.invitation) (sym both) ∙ ap some (sym same),
      )

module _ {W J K : Type 0} (deps : ConnectionDeps W J) (config : AgentConfig)
    (sending : ConnectionSending W) (codec : InvitationCodec K) where
  default_domain_plain : after marker default_domain ≡ none
  unfolding after strip_prefix
  default_domain_plain = refl

  -- Over a codec that reads the created invitation as written: whenever the route `/invitation`
  -- responds, with a message id of the accepted form, an invitation was created and is kept in the
  -- record of its connection, and decodeInvitationFromUrl of the url that is sent returns it, field
  -- by field.
  pub decode_invitation-get_invitation :
      (fresh : Fresh) (route_id : String) (s : Connecting W) {url : List ℕ} {s' : Connecting W}
      → ((i : ConnectionInvitationMessage) (r : ConnectionRecord)
          → (create_invitation deps config fresh (record { auto_accept = none; alias = none }) s).0
            ≡ ok (i, r)
          → IsReadable codec (plain_of i))
      → matches_message_id (some fresh.message_id) ≡ true
      → get_invitation deps config sending codec fresh route_id s ≡ (ok url, s')
      → (invitation : ConnectionInvitationMessage) × (inviting : ConnectionRecord)
        × ((create_invitation deps config fresh (record { auto_accept = none; alias = none }) s).0
            ≡ ok (invitation, inviting))
        × (inviting.invitation ≡ some invitation)
        × (decode_invitation_from_url codec url ≡ ok (plain_of invitation))
  unfolding get_invitation create_connection
  decode_invitation-get_invitation fresh route_id s {url} law accepted made =
      let options : InvitationConfig = record { auto_accept = none; alias = none } in
      let connect = create_connection deps config sending fresh route_id options in
      let (answer, connected, last) = bind-ok connect _ s made in
      let create = create_invitation deps config fresh options in
      let ((invitation, inviting), first, more) = bind-ok create _ s (ok-run connect s connected) in
      let (_, _, more) = bind-ok _ _ _ more in
      let answered = returned more in
      let (by_keys, kept) =
        create_invitation-ByKeys deps config fresh options s (ok-run create s first) in
      let written : encode_invitation_to_url codec invitation default_domain ≡ url =
        ap (λ p. encode_invitation_to_url codec p.0 default_domain) answered ∙ returned last in
      (
        invitation,
        inviting,
        first,
        kept,
        ap (decode_invitation_from_url codec) (sym written)
            ∙ decode-encode_invitation codec invitation default_domain
                (law invitation inviting first) default_domain_plain
                (ByKeys-Valid fresh.message_id invitation by_keys accepted),
      )
