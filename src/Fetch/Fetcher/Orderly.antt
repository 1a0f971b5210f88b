-- ===== src/Fetch/Fetcher/Orderly.antt =====
-- How a fetch takes and returns its slot, and how often it asks.
use lead_discovery_rader.Prelude.{ℕ, suc, ◌+◌, ◌≤◌, String, List, [], ◌∷◌, true, false}
use lead_discovery_rader.Fetch.Url.{UrlLibrary}
use lead_discovery_rader.Fetch.Fetcher.{
  FetchRequest, Event, sent, slot_taken, slot_released, host_claimed, resolved, Settings, Env, Net,
  name_of,
}

-- The traces that so many requests leave, the latest event first. Each request stands between the
-- slot that was taken for it and the slot's return, with nothing but the claim on its host between
-- them, and over the network there is such a claim.
pub data IsOrderly : ℕ → List Event → Type 0 where
  nothing : IsOrderly 0 []
  looked_up :
      {n : ℕ} {t : List Event} (host : String) (port : ℕ)
      → IsOrderly n t
      → IsOrderly n (resolved host port ∷ t)
  from_disk :
      {n : ℕ} {t : List Event} (r : FetchRequest)
      → IsOrderly n t
      → IsOrderly (suc n) (slot_released ∷ sent false r ∷ slot_taken ∷ t)
  over_network :
      {n : ℕ} {t : List Event} (r : FetchRequest)
      → IsOrderly n t
      → IsOrderly
          (suc n)
          (slot_released ∷ sent true r ∷ host_claimed (name_of r.parts.hostname) ∷ slot_taken ∷ t)

-- At most so many requests have been made.
abbrev pub IsWithin : ℕ → Net → Type 0
IsWithin most net = (n : ℕ) × (n ≤ most) × IsOrderly n net.trace

module _ (urls : UrlLibrary) (settings : Settings) (env : Env) where
  -- So many more requests may be made.
  abbrev Leaves : ℕ → ℕ → Net → Type 0
  Leaves most left net = (n : ℕ) × (n + left ≤ most) × IsOrderly n net.trace
