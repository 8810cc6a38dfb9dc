-- ===== src/Container.antt =====
-- Containers, container.h and container.cpp, with the parts of item.cpp that weigh and count items.
-- An item stands in one place, so a container is the value of what it holds, and a container inside
-- others is a `Place`: itself, and the chain of the containers around it. Pointers are told by a
-- number of their own, `ref`. Weights are whole numbers in place of `double`, in the smallest unit
-- of the item table.
pub mod Items
pub mod Place
pub mod Query
pub mod Cursor
mod Sums
mod Weight
mod Room
mod Visit
mod Tests
