-- ===== src/Examples/Documents.antt =====
-- A concrete instance of the documents that the store keeps: a tag and a text.
use aurelix.Base.{
  ℕ, Bool, ◌&&◌, ◌≡◌, ◌↔◌, true, refl, arith, String, ◌==◌, nat_eq, string_eq, eq_iff, nat_beq,
}
use aurelix.Store.Tables.{Documents}

abbrev pub Document : Type 0
Document = ℕ × String

abbrev same_document : Document → Document → Bool
same_document a b = nat_beq a.0 b.0 && a.1 == b.1

pub same_document_iff : (a b : Document) → (same_document a b ≡ true) ↔ (a ≡ b)
same_document_iff (m, s) (n, t) = ground (arith, eq_iff s t)

instance abbrev pub tagged : Documents Document
tagged = record {
  same = same_document;
  same_iff = same_document_iff;
  is_empty = λ d. nat_beq d.0 0;
  empty = (0, "");
  success = (1, "");
  failure = λ t. (2, t);
  with_objective = λ o. (3, o);
  objective = λ d. d.1;
  objective_lem = λ o. refl;
}
