-- ===== src/Economy.antt =====
-- src/aurelix_core: from evidence to realized revenue. Evidence is evidence.py, Opportunities
-- opportunities.py, Qualification economic_opportunity_validation.py, Revenue revenue.py, Sources
-- opportunity_revenue_bridge.py, Business opportunity_execution_bridge.py, Portfolio
-- revenue_portfolio.py, Attribution economic_attribution.py, Lessons verified_economic_learning.py.
pub mod Evidence
pub mod Opportunities
pub mod Qualification
pub mod Revenue
pub mod Sources
pub mod Business
pub mod Portfolio
pub mod Attribution
pub mod Lessons
