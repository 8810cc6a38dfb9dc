-- ===== src/Player.antt =====
-- What a player gains and loses: player.cpp and vocation.cpp.
pub mod Climb
pub mod Training
pub mod TrainingLaws
pub mod Level
pub mod LevelLaws
mod LevelCost
pub mod Vitals
pub mod VitalsLaws
mod Tests
