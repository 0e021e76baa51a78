-- ===== src/Pa/Routine/Override/Tests.antt =====
-- A test of `pa_rule_valid_assignment`: the pair 7 may override an advertised prefix of priority 2.
use hnetd.Common.{◌≡◌, refl, true, arith}
use hnetd.Pa.Fixture.{subprefix, held, core}
use hnetd.Pa.Routine.Override.{
  rule_valid_assignment, own_refuses, held_firmly, ldp_refuses, no_ldp_refuses, no_advp_refuses,
  IsOverriding, rule_valid_assignment_lem,
}

accepted : rule_valid_assignment 6 3 true core 7 subprefix ≡ true
unfolding rule_valid_assignment own_refuses held_firmly ldp_refuses no_ldp_refuses no_advp_refuses
accepted = ground arith

rule_valid_assignment_lem_example :
    IsOverriding 6 3 true core 7 (record held { priority = 3; rule_priority = 6 })
rule_valid_assignment_lem_example =
    rule_valid_assignment_lem 6 3 true core 7 (record held { priority = 3; rule_priority = 6 })
      accepted refl refl
