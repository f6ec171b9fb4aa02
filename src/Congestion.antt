-- ===== src/Congestion.antt =====
-- src/rtc/congestion_control: the parts that compute with integers.
pub mod ArrivalTimes
pub mod IntervalBudget
