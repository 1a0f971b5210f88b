-- ===== src/Resolution/Blocking.antt =====
-- backend/app/modules/resolution/blocking.py: which businesses a record is compared with. The
-- table is a list of rows; a query without an order gives them in the table's order.
pub mod Candidates
use lead_discovery_rader.Prelude.{
  ℕ, String, Option, none, some, List, [], ◌∷◌, ◌++◌, Bool, true, false, not, ◌&&◌, ◌||◌, ltb, leb,
  ◌==◌, ◌==ₛ◌, keep, take, any, length, if◌then◌else◌, is_some,
}
use lead_discovery_rader.Floats.{Floats}
use lead_discovery_rader.Resolution.Model.{
  NormalizedBusiness, Business, Tools, WebsiteKind, own_site, builder_subdomain, social_profile,
  no_website, known, ◌==?◌,
}

abbrev pub geo_fetch_limit : ℕ
geo_fetch_limit = 200

pub record BlockingKeys : Type 0 where
  pub domain : Option String
  pub phone_e164 : Option String
  pub postal_name : Option (String × String)
  pub geohash_cells : List String

-- `is not WebsiteKind.social_profile`
abbrev pub is_social : WebsiteKind → Bool
is_social social_profile = true
is_social own_site = false
is_social builder_subdomain = false
is_social no_website = false

abbrev no_cells : List String → Bool
no_cells [] = true
no_cells (cell ∷ rest) = false

unfoldable pub is_empty : BlockingKeys → Bool
is_empty keys = not (
    known keys.domain
    || (known keys.phone_e164 || (is_some keys.postal_name || not (no_cells keys.geohash_cells))))

-- A pair of two known strings.
abbrev known_pair : Option String → Option String → Option (String × String)
known_pair (some a) (some b) = if known (some a) && known (some b) then some (a, b) else none
known_pair _ _ = none

-- The settings `RESOLUTION_MAX_CANDIDATES` and `RESOLUTION_BLOCK_NAME_RATIO`.
pub record BlockingSettings (fl : Floats) : Type 0 where
  pub max_candidates : ℕ
  pub block_name_ratio : fl.Float

module _ (fl : Floats) where
  module _ (tools : Tools fl) where
    cells_of : Option fl.Float → Option fl.Float → List String
    cells_of (some lat) (some lng) = tools.neighbours lat lng
    cells_of _ _ = []

    unfoldable pub candidate_keys : NormalizedBusiness fl → BlockingKeys
    unfolding cells_of
    candidate_keys normalized = record {
      domain =
          if known normalized.domain && not (is_social normalized.website_kind)
          then normalized.domain
          else none;
      phone_e164 = normalized.phone_e164;
      postal_name = known_pair normalized.address.postal_code normalized.name_key;
      geohash_cells = cells_of normalized.lat normalized.lng;
    }

  -- `order_by(created_at.asc(), id.asc())`
  abbrev older : Business fl → Business fl → Bool
  older a b = ltb a.created_at b.created_at || ((a.created_at == b.created_at) && leb a.id b.id)

  insert_by_age : Business fl → List (Business fl) → List (Business fl)
  insert_by_age x [] = x ∷ []
  insert_by_age x (y ∷ ys) = if older x y then x ∷ y ∷ ys else y ∷ insert_by_age x ys

  unfoldable pub by_age : List (Business fl) → List (Business fl)
  unfolding insert_by_age
  by_age [] = []
  by_age (x ∷ xs) = insert_by_age x (by_age xs)

  abbrev in_cells : List String → Option String → Bool
  in_cells cells none = false
  in_cells cells (some geohash) = any (λ cell. geohash ==ₛ cell) cells

  module _ (tools : Tools fl) (settings : BlockingSettings fl) where
    abbrev alike : Option String → Option String → Bool
    alike (some a) (some b) =
        known (some b) && fl.leb settings.block_name_ratio (tools.token_set_ratio a b)
    alike _ _ = false

    unfoldable pub nearby_by_name :
        NormalizedBusiness fl → List String → List (Business fl) → List (Business fl)
    unfolding by_age
    nearby_by_name normalized cells table =
        if not (known normalized.normalized_name)
        then []
        else keep (λ row. alike normalized.normalized_name row.normalized_name)
            (take geo_fetch_limit (by_age (keep (λ row. in_cells cells row.geohash7) table)))

    abbrev pub has_id : ℕ → List (Business fl) → Bool
    has_id id rows = any (λ row. row.id == id) rows

    abbrev pub skipped : List ℕ → ℕ → Bool
    skipped skip id = any (λ other. other == id) skip

    -- `collect`, on the rows found so far.
    unfoldable pub collect :
        ℕ → List ℕ → List (Business fl) → List (Business fl) → List (Business fl)
    collect cap skip found [] = found
    collect cap skip found (row ∷ rest) =
        collect cap skip
          (if not (skipped skip row.id) && (not (has_id row.id found) && ltb (length found) cap)
            then found ++ (row ∷ [])
            else found)
          rest

    -- One block: its query is asked only where its key is there, and only below the cap.
    unfoldable pub block :
        ℕ → List ℕ → Bool → List (Business fl) → List (Business fl) → List (Business fl)
    block cap skip wanted rows found =
        if wanted && ltb (length found) cap then collect cap skip found rows else found

    abbrev shares : Option (String × String) → Business fl → Bool
    shares none row = false
    shares (some (postal, name)) row =
        (row.postal_code ==? some postal) && (row.name_key ==? some name)

    find_blocks :
        ℕ → List ℕ → BlockingKeys → NormalizedBusiness fl → List (Business fl) → List (Business fl)
    find_blocks cap skip keys normalized table =
        let first =
          block cap skip (known keys.domain) (keep (λ row. row.domain ==? keys.domain) table) [] in
        let second =
          block cap skip (known keys.phone_e164)
            (keep (λ row. row.phone_e164 ==? keys.phone_e164) table) first in
        let third =
          block cap skip (is_some keys.postal_name) (keep (shares keys.postal_name) table) second in
        block cap skip (not (no_cells keys.geohash_cells))
          (nearby_by_name normalized keys.geohash_cells table) third

    abbrev pub cap_of : Option ℕ → ℕ
    cap_of none = settings.max_candidates
    cap_of (some limit) = limit

    unfoldable pub find_candidates :
        NormalizedBusiness fl → Option ℕ → List ℕ → List (Business fl) → List (Business fl)
    unfolding find_blocks
    find_candidates normalized limit exclude table =
        let keys = candidate_keys tools normalized in
        if is_empty keys || leb (cap_of limit) 0
        then []
        else find_blocks (cap_of limit) exclude keys normalized table
