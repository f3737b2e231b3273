-- ===== src/Derivations/Independence.antt =====
-- `derive_independence` of src/agentic_security/derivations.py.
use agentic_sec_blog_publish.Prelude.{Bool, true, false, ◌||◌, if◌then◌else◌}
use agentic_sec_blog_publish.Models.Vocabulary.{
  FundingRelationship, CommercialRelationship, IndependenceDesignation,
}
use agentic_sec_blog_publish.Models.Evidence.{IndependenceFacets}

abbrev pub undisclosed_funding : FundingRelationship → Bool
undisclosed_funding FundingRelationship.undisclosed = true
undisclosed_funding _ = false

abbrev pub undisclosed_trade : CommercialRelationship → Bool
undisclosed_trade CommercialRelationship.undisclosed = true
undisclosed_trade _ = false

abbrev pub vendor_self_trade : CommercialRelationship → Bool
vendor_self_trade CommercialRelationship.vendor_self = true
vendor_self_trade _ = false

-- `in {COMMISSIONED, EMPLOYMENT}`
abbrev pub paid_funding : FundingRelationship → Bool
paid_funding FundingRelationship.commissioned = true
paid_funding FundingRelationship.employment = true
paid_funding _ = false

unfoldable pub derive_independence : IndependenceFacets → IndependenceDesignation
derive_independence f =
    if undisclosed_funding f.funding_relationship || undisclosed_trade f.commercial_relationship
    then IndependenceDesignation.undetermined
    else if vendor_self_trade f.commercial_relationship
    then IndependenceDesignation.vendor_self
    else if paid_funding f.funding_relationship
    then IndependenceDesignation.vendor_self
    else if f.vendor_selected_methodology
        || (f.vendor_operated_test || f.vendor_reviewed_before_publication)
    then IndependenceDesignation.vendor_influenced
    else if f.reproducible_method
    then IndependenceDesignation.independent
    else IndependenceDesignation.undetermined
