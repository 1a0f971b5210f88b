-- ===== src/Classify/Catalogue.antt =====
-- The catalogue of findings of modules/audit_web/findings.py, and the services of
-- modules/opportunities/catalogue.py.
use lead_discovery_rader.Prelude.{
  String, Option, none, some, List, [], ◌∷◌, Bool, ◌==ₛ◌, any, find_first,
}

pub data Severity : Type 0 where
  info low medium high : Severity

pub data Service : Type 0 where
  website_design seo_gbp booking_setup ai_chat_setup ads_social : Service

pub data Method : Type 0 where
  deterministic api ai : Method

pub record FindingSpec : Type 0 where
  pub code : String
  pub severity : Severity
  pub service : Option Service
  pub wording : String
  pub method : Method

abbrev spec : String → Severity → Option Service → String → Method → FindingSpec
spec code severity service wording method = record {
  code = code;
  severity = severity;
  service = service;
  wording = wording;
  method = method;
}

-- `CATALOGUE`
unfoldable pub catalogue : List FindingSpec
catalogue =
    spec "no_website" high (some website_design)
      "Audit found no website on this business's listing." deterministic
    ∷ spec "social_profile_only" high (some website_design)
        "Audit found only a social media profile where a website would be, so no site was audited."
        deterministic
    ∷ spec "unreachable" high (some website_design) "Audit could not load the homepage at {url}."
        deterministic
    ∷ spec "no_https" high (some website_design)
        "Audit found the homepage served over http, not https." deterministic
    ∷ spec "tls_invalid" high (some website_design)
        "Audit could not verify the https certificate for {url}." deterministic
    ∷ spec "builder_subdomain" medium (some website_design)
        "Audit found the homepage served from a website-builder subdomain." deterministic
    ∷ spec "site_builder" low (some website_design)
        "Audit found the homepage is built with {platform}." deterministic
    ∷ spec "no_mobile_viewport" high (some website_design)
        "Audit found no mobile viewport tag on the homepage." deterministic
    ∷ spec "viewport_blocks_zoom" medium (some website_design)
        "Audit found the homepage's viewport tag asks phones not to let visitors zoom ({detail})."
        deterministic
    ∷ spec "missing_title" medium (some seo_gbp) "Audit found no page title on the homepage."
        deterministic
    ∷ spec "default_title" medium (some seo_gbp)
        "Audit found the homepage title does not name the business." deterministic
    ∷ spec "short_title" low (some seo_gbp)
        "Audit found the homepage title is only {length} characters long." deterministic
    ∷ spec "long_title" low (some seo_gbp)
        "Audit found the homepage title is {length} characters long; search results show about the first 60."
        deterministic
    ∷ spec "missing_meta_description" medium (some seo_gbp)
        "Audit found no meta description on the homepage." deterministic
    ∷ spec "no_h1" low (some seo_gbp) "Audit found no main heading on the homepage." deterministic
    ∷ spec "multiple_h1" low (some seo_gbp)
        "Audit found {count} main headings (h1) on the homepage, where one is usual." deterministic
    ∷ spec "no_structured_data" low (some seo_gbp)
        "Audit found no LocalBusiness structured data on the homepage." deterministic
    ∷ spec "no_local_business_schema" low (some seo_gbp)
        "Audit found structured data on the homepage ({types}), but none that describes a local business."
        deterministic
    ∷ spec "invalid_structured_data" medium (some seo_gbp)
        "Audit found structured data on the homepage that does not parse, so search engines cannot read it."
        deterministic
    ∷ spec "nap_phone_mismatch" low (some seo_gbp)
        "Audit found the homepage phone link differs from the listing's phone number; a call-tracking line is the usual explanation and is worth confirming."
        deterministic
    ∷ spec "listing_website_http" low (some seo_gbp)
        "Listing shows the website as {listing}, an http address, while the homepage is served over https."
        deterministic
    ∷ spec "listing_website_host_mismatch" low (some seo_gbp)
        "Listing shows the website as {listing}, while the homepage gives its own address as {site}."
        deterministic
    ∷ spec "no_online_booking" medium (some booking_setup)
        "Audit found no visible online booking flow on the homepage." deterministic
    ∷ spec "no_live_chat" medium (some ai_chat_setup)
        "Audit found no live chat or messaging widget on the homepage." deterministic
    ∷ spec "no_contact_on_homepage" high (some website_design)
        "Audit found no phone link, email link or contact form on the homepage." deterministic
    ∷ spec "no_click_to_call" medium (some website_design)
        "Audit found no click-to-call (tel:) link on the homepage." deterministic
    ∷ spec "placeholder_email" high (some website_design)
        "Audit found the homepage email link goes to a template placeholder domain, {domain}."
        deterministic
    ∷ spec "placeholder_text" medium (some website_design)
        "Audit found template placeholder text on the homepage: \"{phrase}\"." deterministic
    ∷ spec "images_without_alt" low (some website_design)
        "Audit found {missing} of {total} images with no alt text on the homepage." deterministic
    ∷ spec "unlabelled_form_fields" low (some website_design)
        "Audit found {count} {noun} with no associated label on the homepage." deterministic
    ∷ spec "thin_content" low (some website_design)
        "Audit found {words} {noun} of visible text on the homepage." deterministic
    ∷ spec "no_section_headings" low (some website_design)
        "Audit found no section headings below the main heading." deterministic
    ∷ spec "heading_level_skipped" low (some website_design)
        "Audit found the homepage headings skip a level, from {higher} to {lower}." deterministic
    ∷ spec "stale_copyright" low (some website_design)
        "Audit found the homepage copyright year reads {year}." deterministic
    ∷ spec "future_copyright" medium (some website_design)
        "Audit found the homepage copyright year reads {year}, a year that has not happened yet."
        deterministic
    ∷ spec "slow_mobile" medium (some website_design)
        "PageSpeed Insights scored the homepage {score} out of 100 on mobile." api
    ∷ spec "low_accessibility_score" low (some website_design)
        "PageSpeed scored accessibility at {score} out of 100." api
    ∷ spec "low_best_practices_score" low (some website_design)
        "PageSpeed scored best practices at {score} out of 100." api
    ∷ spec "js_shell_suspected" info (some website_design)
        "Audit found almost no text in the homepage HTML, so this audit may be incomplete: the page appears to build itself with JavaScript, which this audit does not run."
        deterministic
    ∷ spec "few_reviews" low (some seo_gbp) "Listing shows {count} {noun}." api
    ∷ spec "robots_blocked" info none
        "Audit could not read the homepage because robots.txt asks automated visitors to stay away."
        deterministic
    ∷ spec "domain_expired" high (some website_design)
        "Registry records show the domain registration for {domain} expired on {date}." api
    ∷ spec "domain_no_a_record" high (some website_design)
        "DNS records show no address record (A, AAAA or CNAME) for {host}." api
    ∷ spec "domain_expiring_soon" medium (some website_design)
        "Registry records show the domain registration for {domain} expires on {date}, in {days} days."
        api
    ∷ spec "multiple_spf_records" medium none "DNS records show {count} SPF records for {domain}."
        api
    ∷ spec "spf_allows_all" medium none
        "DNS records show an SPF record for {domain} containing `{mechanism}`." api
    ∷ spec "no_spf" low none "DNS records show no SPF record for {domain}." api
    ∷ spec "no_dmarc" low none "DNS records show no DMARC record for {domain}." api
    ∷ spec "dmarc_policy_none" low none "DNS records show a DMARC policy of `none` for {domain}."
        api
    ∷ spec "no_domain_mx" low none "DNS records show no mail server (MX) record for {domain}." api
    ∷ []

-- `CATALOGUE.get`
unfoldable pub spec_of : String → Option FindingSpec
unfolding catalogue
spec_of code = find_first (λ finding. finding.code ==ₛ code) catalogue

abbrev pub service_value : Service → String
service_value website_design = "website_design"
service_value seo_gbp = "seo_gbp"
service_value booking_setup = "booking_setup"
service_value ai_chat_setup = "ai_chat_setup"
service_value ads_social = "ads_social"

-- `SERVICES`, without the names.
abbrev pub services : List Service
services = website_design ∷ seo_gbp ∷ booking_setup ∷ ai_chat_setup ∷ ads_social ∷ []

unfoldable pub is_service : String → Bool
is_service key = any (λ service. key ==ₛ service_value service) services
