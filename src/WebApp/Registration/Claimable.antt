-- ===== src/WebApp/Registration/Claimable.antt =====
-- internal/appliancewebapp/webapp.go: a Claim after a Register, and an EnrollRedeem after an Enroll.
use appliance_registry.Prelude.{
  ℕ, ◌+◌, ◌≤◌, ◌≡◌, refl, sym, ap, subst, ◌∙◌, Option, some, List, [], ◌∷◌, Text, ok, arith,
}
use appliance_registry.External.{External, Backend}
use appliance_registry.Persistence.{Appliance, pending}
use appliance_registry.World.{World, Database}
use appliance_registry.World.Statements.{row_of, new_row}
use appliance_registry.World.Rows.{appliance_of}
use appliance_registry.World.Integrity.{IsConsistent}
use appliance_registry.Mariadb.Store.Rows.{row_of-snoc}
use appliance_registry.Mariadb.Store.Refinement.{below_is_free}
use appliance_registry.Tokens.{bearer_token}
use appliance_registry.RestModels.{
  EnrollApplianceResponse, RegisterApplianceResponse, ClaimApplianceResponse,
}
use appliance_registry.Program.Run.{run, tick}
use appliance_registry.WebApp.{WebApp, to_appliance_response}
use appliance_registry.WebApp.Claiming.{claim, enroll_redeem}
use appliance_registry.WebApp.Claiming.Redeeming.{enroll_redeem_succeeds}
use appliance_registry.WebApp.Claiming.Outcomes.{Claimed}
use appliance_registry.WebApp.Claiming.Success.{claim_succeeds}
use appliance_registry.WebApp.Registration.{register, enroll}
use appliance_registry.WebApp.Registration.Enrolled.{enroll-Enrolled}
use appliance_registry.WebApp.Registration.Outcomes.{Created}
use appliance_registry.WebApp.Registration.Issued.{register-Registered}

module _ {b : Backend} (x : External) (app : WebApp) where
  -- The row that has been added is the one that is read back.
  created-pending :
      (name : Text) (g : ℕ) (a : Appliance) (w v : World b)
      → IsConsistent w.db
      → Created x w name g a v
      → (a.id ≡ w.next_id) × (a.status ≡ pending)
  unfolding row_of
  created-pending name g a w v h c =
      let new = new_row name c.label g w.next_id (b.column_time w.clock) in
      let free = below_is_free w.next_id w.appliances h.0.below in
      let made : row_of w.next_id v.db ≡ some new =
        ap (λ (db : Database). row_of w.next_id db) c.new_db
        ∙ row_of-snoc w.db new free w.next_id
        ∙ ground arith in
      let same = c.read_back in ground arith

  -- The claim token that a successful Register returns claims the appliance that it has added: right after,
  -- before the expiry as the column holds it, where no call of the claim fails and the random source has a
  -- read at hand, the claim succeeds, and has then done all that a claim does.
  pub register_then_claim :
      (authorization name : Text) (w : World b) {resp : RegisterApplianceResponse} {w' : World b}
      → IsConsistent w.db
      → run (register x app authorization name) w ≡ (ok resp, w')
      → (header : Text) → bearer_token header ≡ some resp.claim_token
      → w'.clock + tick w'.ticks ≤ b.column_time resp.claim_token_expires_at
      → w'.faults ≡ []
      → (buf : List ℕ) (rest : List (Option (List ℕ))) → w'.entropy ≡ some buf ∷ rest
      → (answer : ClaimApplianceResponse) × (w'' : World b) × (run
            (claim x app header resp.appliance.id)
            w'
          ≡ (ok answer, w''))
        × Claimed x app w' resp.appliance.id answer w''
  unfolding to_appliance_response row_of
  register_then_claim authorization name w {resp} {w'} h done header bearer in_time calm buf rest
        enough =
      let r = register-Registered x app authorization name w done in
      let (its_id, waits) =
        created-pending name r.who.group_id r.appliance w r.middle h r.created in
      let id : resp.appliance.id ≡ w.next_id = ap (λ a. a.id) r.its_response ∙ its_id in
      let row : appliance_of w.next_id w'.db ≡ some r.appliance =
        let same = r.same_appliances in let read = r.created.read_back in ground arith in
      subst
        (λ i.
          (answer : ClaimApplianceResponse) × (w'' : World b) × (run (claim x app header i) w'
            ≡ (ok answer, w''))
          × Claimed x app w' i answer w'')
        (sym id)
        (claim_succeeds x app header w.next_id w' resp.claim_token _ r.appliance buf rest bearer
          r.on_file refl in_time row waits calm enough)

  -- The exchange code that a successful Enroll returns claims the appliance that it has added: right
  -- after, before the expiry as the column holds it, where no call of the redemption fails and the random
  -- source has a read at hand, EnrollRedeem succeeds with it, and has then done all that a claim does.
  pub enroll_then_redeem :
      (authorization name : Text) (w : World b) {resp : EnrollApplianceResponse} {w' : World b}
      → IsConsistent w.db
      → run (enroll x app authorization name) w ≡ (ok resp, w')
      → (header : Text) → bearer_token header ≡ some resp.exchange_code
      → w'.clock + tick w'.ticks ≤ b.column_time resp.exchange_code_expires_at
      → w'.faults ≡ []
      → (buf : List ℕ) (rest : List (Option (List ℕ))) → w'.entropy ≡ some buf ∷ rest
      → (answer : ClaimApplianceResponse) × (w'' : World b) × (run
            (enroll_redeem x app header resp.appliance_id)
            w'
          ≡ (ok answer, w''))
        × Claimed x app w' resp.appliance_id answer w''
  unfolding row_of
  enroll_then_redeem authorization name w {resp} {w'} h done header bearer in_time calm buf rest
        enough =
      let r = enroll-Enrolled x app authorization name w done in
      let (_, waits) = created-pending name r.who.group_id r.appliance w r.middle h r.created in
      let row : appliance_of w.next_id w'.db ≡ some r.appliance =
        let same = r.same_appliances in let read = r.created.read_back in ground arith in
      subst
        (λ i.
          (answer : ClaimApplianceResponse) × (w'' : World b) × (run (enroll_redeem x app header i)
              w'
            ≡ (ok answer, w''))
          × Claimed x app w' i answer w'')
        (sym r.its_id)
        (enroll_redeem_succeeds x app header w.next_id w' resp.exchange_code _ _ r.appliance buf
          rest bearer r.code_on_file refl in_time r.token_on_file refl row waits calm enough)
