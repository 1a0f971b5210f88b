-- ===== src/Leads/Schedule/Frames.antt =====
-- What scheduling a CRM record leaves alone: every table but the leads and the audit log.
use lead_discovery_rader.Prelude.{ℕ, ◌≡◌, refl, Option, none, some, Bool, false, [], arith}
use lead_discovery_rader.Leads.Model.{CrmLead, Business, World, Settings, get_business}
use lead_discovery_rader.Leads.Gate.{Eligibility, eligibility}
use lead_discovery_rader.Leads.Schedule.{
  get_lead, schedule_new, cancel_unsent, change_unsent, change_sent, change_lead, change_business,
  on_business_changed, reschedule,
}

-- The tables that the review and the suppressions own.
pub record IsSameReview (w w' : World) : Type 0 where
  pub businesses : w'.businesses ≡ w.businesses
  pub users : w'.users ≡ w.users
  pub opportunities : w'.opportunities ≡ w.opportunities
  pub decisions : w'.decisions ≡ w.decisions
  pub suppressions : w'.suppressions ≡ w.suppressions

module _ (settings : Settings) (actor_id : Option ℕ) (now : ℕ) (is_approval : Bool) where
  schedule_new-keeps :
      (state : Eligibility) (business : Business) (w : World)
      → IsSameReview w (schedule_new settings actor_id now is_approval state business w)
  unfolding schedule_new
  schedule_new-keeps state business w = ground arith

  change_lead-keeps :
      (o : Option CrmLead) (state : Eligibility) (business : Business) (w : World)
      → IsSameReview w (change_lead settings actor_id now is_approval o state business w)
  unfolding change_lead change_unsent cancel_unsent change_sent reschedule
  change_lead-keeps none state business w = schedule_new-keeps state business w
  change_lead-keeps (some lead) state business w = ground arith

  change_business-keeps :
      (o : Option Business) (w : World)
      → IsSameReview w (change_business settings actor_id now is_approval o w)
  unfolding change_business
  change_business-keeps none w = record {
    businesses = refl;
    users = refl;
    opportunities = refl;
    decisions = refl;
    suppressions = refl;
  }
  change_business-keeps (some business) w =
      change_lead-keeps (get_lead business.id settings.crm_destination w)
        (eligibility settings business now false [] w) business w

  pub on_business_changed-keeps :
      (business_id : ℕ) (w : World)
      → IsSameReview w (on_business_changed settings actor_id now is_approval business_id w)
  unfolding on_business_changed
  on_business_changed-keeps business_id w = change_business-keeps (get_business business_id w) w
