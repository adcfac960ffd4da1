-- ===== src/Examples.antt =====
-- Small concrete systems and settings, on which the theorems are applied and some definitions are run.
mod Garden
mod Loop
mod Machine
mod Outputs
mod Storage
mod Radio
mod Forecast
mod Keypad
mod Probes
mod WebForm
